-- ===== src/Firmware/App/Serial.antt =====
-- The serial that the firmware reports. The persona copies `serial` when it is constructed, before
-- `app_main` calls `LoadSerial`.
use zwo_eaf_proxy.Base.{
  ℕ, ◌≤◌, ◌≡◌, refl, ap, ◌∙◌, none, some, List, [], ◌∷◌, arith, All, replicate, take_all,
}
use zwo_eaf_proxy.Firmware.Protocol.{Command, parse_command}
use zwo_eaf_proxy.Firmware.Persona as Persona
use zwo_eaf_proxy.Firmware.Persona.{
  EafPersona, FeatureRequest, set_feature, get_feature, apply_command, state_reply_body,
  switch_pending, firmware_reply, set_report_cb, get_report_cb, deliver,
}
use zwo_eaf_proxy.Firmware.Simulated.{simulated_focuser}
use zwo_eaf_proxy.Firmware.Main.{load_serial}
use zwo_eaf_proxy.Firmware.App.{Config, App, boot, Event, request, timer, timer_round, happen, run}
use zwo_eaf_proxy.Firmware.App.Sound.{IsSound, get_report_cb-answer}
use zwo_eaf_proxy.Firmware.App.Answers.{IsReport, run-Answered}
use zwo_eaf_proxy.Firmware.App.Boot.{IsConfigured, first_app, boot-first_app, first_app-IsSound}

serial-apply_command :
    (command : Command) (p : EafPersona simulated_focuser)
    → (apply_command simulated_focuser command p).serial ≡ p.serial
unfolding apply_command
serial-apply_command command p = ground arith

serial-get_report_cb :
    (reqlen : ℕ) (p : EafPersona simulated_focuser)
    → (get_report_cb simulated_focuser reqlen p).1.serial ≡ p.serial
unfolding get_report_cb firmware_reply switch_pending state_reply_body
serial-get_report_cb reqlen p = ground arith

-- Nothing that happens changes the persona's serial.
serial-happen : (e : Event) (a : App) → (happen e a).1.persona.serial ≡ a.persona.serial
unfolding happen deliver set_report_cb timer_round
serial-happen (request (set_feature report_id buffer)) a =
    serial-apply_command (parse_command _) a.persona
serial-happen (request (get_feature reqlen)) a = serial-get_report_cb reqlen a.persona
serial-happen (timer now) a = refl

serial-run : (es : List Event) (a : App) → (run es a).1.persona.serial ≡ a.persona.serial
unfolding run
serial-run [] a = refl
serial-run (e ∷ es) a = serial-run es (happen e a).1 ∙ serial-happen e a

-- The host reads register 0x0C.
abbrev pub read_serial : ℕ → List Event
read_serial reqlen =
    request (set_feature 3 (0x7e ∷ 0x5a ∷ 2 ∷ 0x0c ∷ [])) ∷ request (get_feature reqlen) ∷ []

-- The persona behind the report that names the register
abbrev naming : EafPersona simulated_focuser → EafPersona simulated_focuser
naming p = record p { pending = 12 }

set_report_cb-naming :
    (p : EafPersona simulated_focuser)
    → set_report_cb simulated_focuser 3 (0x7e ∷ 0x5a ∷ 2 ∷ 0x0c ∷ []) p ≡ naming p
unfolding set_report_cb parse_command apply_command
set_report_cb-naming p = refl

naming-IsSound : (p : EafPersona simulated_focuser) → IsSound p → IsSound (naming p)
naming-IsSound p s = record {
  focuser = s.focuser;
  register = omega arith;
  settings = s.settings;
  serial = s.serial;
  version = s.version;
}

switch_pending-naming :
    (p : EafPersona simulated_focuser)
    → IsSound p
    → (switch_pending simulated_focuser (naming p)).0 ≡ p.serial
unfolding switch_pending
switch_pending-naming p s = take_all 12 p.serial (omega (arith, s.serial))

read_serial-answers :
    (reqlen : ℕ) (a : App)
    → 16 ≤ reqlen
    → IsSound a.persona
    → (run (read_serial reqlen) a).0 ≡ none ∷ some (0x7e ∷ 0x5a ∷ 0x0c ∷ a.persona.serial) ∷ []
unfolding run happen deliver
read_serial-answers reqlen a h s =
    ap (λ p. none ∷ (get_report_cb simulated_focuser reqlen p).0 ∷ [])
      (set_report_cb-naming a.persona)
    ∙ ap (λ t. none ∷ t ∷ [])
        (get_report_cb-answer reqlen (naming a.persona) h (naming-IsSound a.persona s))
    ∙ ap (λ t. none ∷ some (0x7e ∷ 0x5a ∷ 0x0c ∷ t) ∷ []) (switch_pending-naming a.persona s)

-- Whatever text is configured as the serial, and whatever happens first, the firmware, configured within
-- its ranges, loads that text into its global and reports a serial of twelve zeros.
pub boot-read_serial :
    (c : Config) (now : ℕ) (es : List Event) (reqlen : ℕ)
    → IsConfigured c
    → All IsReport es
    → 16 ≤ reqlen
    → (a : App) × (boot c now ≡ some a)
      × (a.serial ≡ load_serial c.serial_hex)
      × ((run (read_serial reqlen) (run es a).1).0
          ≡ none ∷ some (0x7e ∷ 0x5a ∷ 0x0c ∷ replicate 12 0) ∷ [])
unfolding Persona.construct
boot-read_serial c now es reqlen h k room =
    let a = first_app c now in
    let sound = (run-Answered es a k (first_app-IsSound c now h)).1 in
    (
      a,
      boot-first_app c now h,
      refl,
      read_serial-answers reqlen (run es a).1 room sound
          ∙ ap (λ t. none ∷ some (0x7e ∷ 0x5a ∷ 0x0c ∷ t) ∷ []) (serial-run es a),
    )
