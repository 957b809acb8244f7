-- ===== src/Firmware/App/Tests.antt =====
-- Runs of the whole firmware, and its theorems at concrete inputs.
use zwo_eaf_proxy.Base.{false, ℕ, ◌≡◌, refl, none, some, List, [], ◌∷◌, arith, All, replicate}
use zwo_eaf_proxy.Base.Int.{pos}
use zwo_eaf_proxy.Firmware.Protocol.{parse_command, encode_state, frame_reply}
use zwo_eaf_proxy.Firmware.Persona as Persona
use zwo_eaf_proxy.Firmware.Persona.{
  set_feature, get_feature, deliver, set_report_cb, get_report_cb, apply_command, firmware_reply,
  switch_pending, state_reply_body,
}
use zwo_eaf_proxy.Firmware.Simulated.{advance, simulated_focuser}
use zwo_eaf_proxy.Firmware.Main.{load_serial, loop_round, loop_rounds}
use zwo_eaf_proxy.Firmware.Main.Serial.{hex_text}
use zwo_eaf_proxy.Firmware.App.{App, Config, boot, Event, request, timer, run, happen, timer_round}
use zwo_eaf_proxy.Firmware.App.Sound.{IsSound}
use zwo_eaf_proxy.Firmware.App.Answers.{IsReport, AllAnswered}
use zwo_eaf_proxy.Firmware.App.Boot.{IsConfigured, first_app, first_app-IsSound, boot-run-Answered}
use zwo_eaf_proxy.Firmware.App.Arrival.{Moves, moved, run-arrives}
use zwo_eaf_proxy.Firmware.App.Serial.{read_serial, boot-read_serial}
use zwo_eaf_proxy.Firmware.Tests.{go_300_buffer, serial_bytes}

abbrev config : Config
config = record {
  serial_hex = hex_text serial_bytes;
  start_position = pos 3000;
  steps_per_second = pos 500;
  version = (3, 8, 2);
  temperature_centi = pos 2150;
}

config-IsConfigured : IsConfigured config
config-IsConfigured = record {
  start_low = omega arith;
  start_high = omega arith;
  rate_low = omega arith;
  rate_high = omega arith;
  temperature_low = omega arith;
  temperature_high = omega arith;
  version = omega arith;
}

-- A move, a round of the loop, and the state
abbrev events : List Event
events =
    request (set_feature 3 go_300_buffer)
    ∷ timer 1_010_500
    ∷ request (get_feature 16)
    ∷ timer 1_011_000
    ∷ []

events-IsReport : All IsReport events
events-IsReport = omega arith

-- The move, from step 3000 to 300 at 500 in a second, in six rounds of one second
abbrev seconds : List ℕ
seconds = 2_000_000 ∷ 3_000_000 ∷ 4_000_000 ∷ 5_000_000 ∷ 6_000_000 ∷ 7_000_000 ∷ []

go_300-Moves : Moves 300 3 go_300_buffer
unfolding parse_command
go_300-Moves = record {
  bytes = omega arith;
  kind = refl;
  go = refl;
  position = refl;
  small = omega arith;
}

run-arrives_example :
    (get_report_cb simulated_focuser 16
      (moved 3 go_300_buffer seconds (first_app config 1_000_000)).persona).0
    ≡ some (0x7e ∷ 0x5a ∷ 3 ∷ encode_state false 300 (pos 2150) 3)
unfolding run happen timer_round loop_round loop_rounds advance deliver set_report_cb apply_command
    parse_command Persona.construct
run-arrives_example =
    run-arrives 300 3 16 500 5400 go_300_buffer seconds (first_app config 1_000_000)
      (first_app-IsSound config 1_000_000 config-IsConfigured) go_300-Moves refl (omega arith)
      (omega arith) (omega arith) (omega arith)

-- Five steps towards 300 in ten milliseconds at 500 in a second, and the settings byte of the move
events_run :
    (run events (first_app config 1_000_000)).0
    ≡ none
      ∷ none
      ∷ some
          (0x7e ∷ 0x5a ∷ 3 ∷ 1 ∷ 0 ∷ 0 ∷ 0 ∷ 0x0b ∷ 0xb3 ∷ 0 ∷ 0x7d ∷ 0x96 ∷ 3 ∷ 0x75 ∷ 0x30 ∷ [])
      ∷ none
      ∷ []
unfolding run happen timer_round loop_round advance deliver set_report_cb get_report_cb
    apply_command firmware_reply switch_pending state_reply_body parse_command encode_state
    frame_reply Persona.construct
events_run = refl

boot-run-Answered_example :
    (a : App) × (boot config 1_000_000 ≡ some a)
    × AllAnswered events (run events a).0
    × IsSound (run events a).1.persona
boot-run-Answered_example =
    boot-run-Answered config 1_000_000 events config-IsConfigured events-IsReport

boot-read_serial_example :
    (a : App) × (boot config 1_000_000 ≡ some a)
    × (a.serial ≡ load_serial (hex_text serial_bytes))
    × ((run (read_serial 63) (run events a).1).0
        ≡ none ∷ some (0x7e ∷ 0x5a ∷ 0x0c ∷ replicate 12 0) ∷ [])
boot-read_serial_example =
    boot-read_serial config 1_000_000 events 63 config-IsConfigured events-IsReport (omega arith)
