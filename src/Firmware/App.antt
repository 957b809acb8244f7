-- ===== src/Firmware/App.antt =====
-- firmware/main/main.cpp as a whole: the globals with their constructors, `app_main`, and what happens
-- then, in some order: the rounds of its loop and the reports of the host, each of which TinyUSB delivers
-- by one callback. Two that run at the same time, in their tasks, are taken one after the other.
pub mod Sound
pub mod Answers
pub mod Boot
pub mod Arrival
pub mod Serial
mod Tests
use zwo_eaf_proxy.Base.{ℕ, Option, none, some, List, [], ◌∷◌, replicate}
use zwo_eaf_proxy.Base.Int.{ℤ}
use zwo_eaf_proxy.Base.Bytes.{Bytes}
use zwo_eaf_proxy.Text.{Text}
use zwo_eaf_proxy.Firmware.Protocol.{k_body_size}
use zwo_eaf_proxy.Firmware.Persona as Persona
use zwo_eaf_proxy.Firmware.Persona.{EafPersona, FeatureRequest, deliver}
use zwo_eaf_proxy.Firmware.Simulated as Simulated
use zwo_eaf_proxy.Firmware.Simulated.{SimulatedFocuser, advance, simulated_focuser}
use zwo_eaf_proxy.Firmware.Main.{load_serial, loop_round}

-- The options of Kconfig.projbuild
pub record Config : Type 0 where
  pub serial_hex : Text
  pub start_position : ℤ
  pub steps_per_second : ℤ
  pub version : ℕ × ℕ × ℕ
  pub temperature_centi : ℤ

-- The globals, and the variable `last_us` of `app_main`. `persona` holds the focuser that it refers to, and
-- its own copy of the serial.
pub record App : Type 0 where
  pub serial : Bytes
  pub persona : EafPersona simulated_focuser
  pub last_us : ℕ

-- The persona that is constructed before `app_main`, over the zeros of `serial`
abbrev pub first_persona : Config → SimulatedFocuser → EafPersona simulated_focuser
first_persona config focuser =
    Persona.construct simulated_focuser focuser (replicate k_body_size 0) config.temperature_centi
      config.version

-- `LoadSerial`, and the first reading of the timer. `LoadSerial` writes to the global only.
abbrev pub app_main : Config → ℕ → EafPersona simulated_focuser → App
app_main config now_us persona = record {
  serial = load_serial config.serial_hex;
  persona = persona;
  last_us = now_us;
}

-- The constructors of the globals, then `app_main` up to its loop; `none` is undefined behaviour.
unfoldable pub boot : Config → ℕ → Option App
boot config now_us =
    elim (Simulated.construct config.start_position config.steps_per_second
      config.temperature_centi) [
        | none ↦ none
        | some focuser ↦ some (app_main config now_us (first_persona config focuser))
      ]

-- What happens: a report of the host, or a round of the loop at a reading of the timer.
pub data Event : Type 0 where
  request : FeatureRequest → Event
  timer : ℕ → Event

-- A round of the loop, on the focuser of the persona
unfoldable pub timer_round : ℕ → App → App
timer_round now_us a =
    let (last, focuser) = loop_round advance now_us (a.last_us, a.persona.focuser) in
    record a { last_us = last; persona = record a.persona { focuser = focuser } }

unfoldable pub happen : Event → App → Option Bytes × App
happen (request q) a =
    let (answer, p) = deliver simulated_focuser q a.persona in (answer, record a { persona = p })
happen (timer now_us) a = (none, timer_round now_us a)

-- The events in their order, with the answers of the host's reports
unfoldable pub run : List Event → App → List (Option Bytes) × App
run [] a = ([], a)
run (e ∷ es) a =
    let (answer, b) = happen e a in let (answers, c) = run es b in (answer ∷ answers, c)
