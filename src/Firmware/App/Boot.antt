-- ===== src/Firmware/App/Boot.antt =====
-- The firmware from its configuration on.
use zwo_eaf_proxy.Base.{
  ℕ, ◌-◌, ◌*◌, ◌^◌, ◌≡◌, refl, ◌∙◌, true, some, List, [], ◌∷◌, arith, All, leb,
}
use zwo_eaf_proxy.Base.Int.{ℤ, pos, negsuc, pos_part, ◌≤ℤ◌}
use zwo_eaf_proxy.Base.Bytes.{IsByte}
use zwo_eaf_proxy.Firmware.Persona as Persona
use zwo_eaf_proxy.Firmware.Persona.{
  EafPersona, FeatureRequest, set_feature, get_feature, int32, apply_command, state_reply_body,
  switch_pending, firmware_reply, payload, set_report_cb, get_report_cb, deliver,
}
use zwo_eaf_proxy.Firmware.Simulated.{SimulatedFocuser, construct}
use zwo_eaf_proxy.Firmware.Simulated.Safety.{construct-start}
use zwo_eaf_proxy.Firmware.App.{Config, App, boot, first_persona, app_main, Event, run}
use zwo_eaf_proxy.Firmware.App.Sound.{IsSound}
use zwo_eaf_proxy.Firmware.App.Answers.{IsReport, AllAnswered, run-Answered}

-- A configuration with a start in steps that the constructor can multiply, a rate that is not negative, a
-- temperature to which the bias can be added, and a version of bytes; the text of the serial is any.
pub record IsConfigured (c : Config) : Type 0 where
  pub start_low : pos 0 ≤ℤ c.start_position
  pub start_high : c.start_position ≤ℤ pos 2147483
  pub rate_low : pos 0 ≤ℤ c.steps_per_second
  pub rate_high : c.steps_per_second ≤ℤ pos (2 ^ 31 - 1)
  pub temperature_low : negsuc (2 ^ 31 - 1) ≤ℤ c.temperature_centi
  pub temperature_high : c.temperature_centi ≤ℤ pos (2 ^ 31 - 30001)
  pub version : All IsByte (c.version.0 ∷ c.version.1 ∷ c.version.2 ∷ [])

-- The focuser at rest at the start
abbrev pub first_focuser : Config → SimulatedFocuser
first_focuser c = record {
  position = pos (1000 * pos_part c.start_position);
  target = pos (pos_part c.start_position);
  rate = c.steps_per_second;
  temperature_centi = c.temperature_centi;
}

abbrev pub first_app : Config → ℕ → App
first_app c now = app_main c now (first_persona c (first_focuser c))

started :
    (z rate centi : ℤ)
    → pos 0 ≤ℤ z
    → z ≤ℤ pos 2147483
    → construct z rate centi
      ≡ some (record {
        position = pos (1000 * pos_part z);
        target = pos (pos_part z);
        rate = rate;
        temperature_centi = centi;
      })
started (negsuc n) rate centi h k = absurd (omega arith)
started (pos n) rate centi h k =
    let e : leb n 2147483 ≡ true = ground arith in construct-start n rate centi ∙ rw e refl

pub boot-first_app : (c : Config) (now : ℕ) → IsConfigured c → boot c now ≡ some (first_app c now)
unfolding boot
boot-first_app c now h =
    rw
      (
        boot,
        started c.start_position c.steps_per_second c.temperature_centi h.start_low h.start_high,
      )
      refl

pub first_app-IsSound : (c : Config) (now : ℕ) → IsConfigured c → IsSound (first_app c now).persona
unfolding Persona.construct
first_app-IsSound c now h = record {
  focuser = record {
    position_low = omega arith;
    position_high = let k = h.start_high in ground arith;
    target_low = omega arith;
    target_high = let k = h.start_high in ground arith;
    rate_low = h.rate_low;
    rate_high = h.rate_high;
    temperature_low = h.temperature_low;
    temperature_high = h.temperature_high;
  };
  register = omega arith;
  settings = omega arith;
  serial = omega arith;
  version = h.version;
}

-- Configured within its ranges, the firmware starts, and then answers in whatever order reports of the
-- host and rounds of the loop come: a GET_REPORT with room for a report gets the magic, a register of a
-- byte and a body of twelve bytes, one with less room gets none. Its bytes stay bytes, and its focuser safe.
pub boot-run-Answered :
    (c : Config) (now : ℕ) (es : List Event)
    → IsConfigured c
    → All IsReport es
    → (a : App) × (boot c now ≡ some a) × AllAnswered es (run es a).0 × IsSound (run es a).1.persona
boot-run-Answered c now es h k =
    let (answers, left) = run-Answered es (first_app c now) k (first_app-IsSound c now h) in
    (first_app c now, boot-first_app c now h, answers, left)
