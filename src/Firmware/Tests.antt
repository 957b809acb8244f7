-- ===== src/Firmware/Tests.antt =====
-- Runs of the firmware, and the theorems at concrete inputs.
use zwo_eaf_proxy.Base.{
  ℕ, suc, ◌+◌, ◌*◌, ◌≤◌, ◌<◌, ◌≡◌, refl, none, some, List, [], ◌∷◌, ◌++◌, arith, length, map, true,
  inl, inr, take,
}
use zwo_eaf_proxy.Base.Int.{pos, ◌-ℤ◌}
use zwo_eaf_proxy.Base.Result.{ok}
use zwo_eaf_proxy.Base.Bytes.{Bytes, ljust}
use zwo_eaf_proxy.Float.FixedPoint.{fixed_point, fixed_point-IsFloat}
use zwo_eaf_proxy.Cli.{serial_arg}
use zwo_eaf_proxy.Persona.Protocol as Host
use zwo_eaf_proxy.Persona.Protocol.{clamp_u16, encode_temperature}
use zwo_eaf_proxy.Persona.Device.{Device, serve}
use zwo_eaf_proxy.Persona.Device.Safety.{IsReady}
use zwo_eaf_proxy.Firmware.Protocol.{
  default_command, k_write_state, parse_command, encode_state, frame_reply,
}
use zwo_eaf_proxy.Firmware.Protocol.Agree.{as_firmware, parse_command-agrees}
use zwo_eaf_proxy.Firmware.Persona.{
  EafPersona, FeatureRequest, set_feature, get_feature, firmware_serve, deliver, set_report_cb,
  get_report_cb, apply_command, firmware_reply, switch_pending, state_reply_body,
}
use zwo_eaf_proxy.Firmware.Persona.Agree.{mirror}
use zwo_eaf_proxy.Firmware.Persona.Replies.{Measures, Configured, payload_of}
use zwo_eaf_proxy.Firmware.Persona.Session.{firmware_serve-agrees, on_wire}
use zwo_eaf_proxy.Firmware.Simulated.{SimulatedFocuser, advance, times, simulated_focuser}
use zwo_eaf_proxy.Firmware.Simulated.Advance.{advance-advance}
use zwo_eaf_proxy.Firmware.Simulated.Safety.{IsSafe, IsInt64, advance-IsSafe, contract}
use zwo_eaf_proxy.Firmware.Main.{load_serial, load_bytes, loop_round, loop_rounds}
use zwo_eaf_proxy.Firmware.Main.Serial.{
  hex_text, cased_text, load_serial-cased_text, serial_arg-load_serial,
}
use zwo_eaf_proxy.Firmware.Main.Loop.{loop_rounds-lag, last_of}

-- A state write that moves to 300, with the settings byte 3
abbrev pub go_300_buffer : Bytes
go_300_buffer = 0x7e ∷ 0x5a ∷ 3 ∷ 1 ∷ 0 ∷ 0 ∷ 0 ∷ 1 ∷ 0x2c ∷ 0 ∷ 0 ∷ 0 ∷ 3 ∷ 0 ∷ 0 ∷ []

go_300_command :
    parse_command (3 ∷ go_300_buffer)
    ≡ record default_command { kind = k_write_state; go = true; position = 300; settings = pos 3 }
unfolding parse_command
go_300_command = refl

parse_command-agrees_example :
    parse_command (3 ∷ go_300_buffer) ≡ as_firmware (Host.parse_command (3 ∷ go_300_buffer))
parse_command-agrees_example = parse_command-agrees (3 ∷ go_300_buffer)

-- At step 100, on its way to 200 at 50 steps in a second, with 20.00 degrees
abbrev running : SimulatedFocuser
running = record {
  position = pos 100_000;
  target = pos 200;
  rate = pos 50;
  temperature_centi = pos 2000;
}

running-IsSafe : IsSafe running
running-IsSafe = record {
  position_low = omega arith;
  position_high = omega arith;
  target_low = omega arith;
  target_high = omega arith;
  rate_low = omega arith;
  rate_high = omega arith;
  temperature_low = omega arith;
  temperature_high = omega arith;
}

advance_run : (advance 500 running).position ≡ pos 125_000
unfolding advance
advance_run = refl

advance-advance_example : advance 1800 (advance 500 running) ≡ advance 2300 running
advance-advance_example = advance-advance 50 500 1800 running refl

advance-IsSafe_example :
    IsSafe (advance 500 running)
    × IsInt64 (times 1000 running.target)
    × IsInt64 (times 1000 running.target -ℤ running.position)
    × IsInt64 (times 500 running.rate)
advance-IsSafe_example = advance-IsSafe 500 running (omega arith) running-IsSafe

abbrev eaf : Device fixed_point simulated_focuser
eaf = record {
  focuser = running;
  pending = 3;
  settings = 1;
  serial = 0x60 ∷ 0 ∷ 1 ∷ 2 ∷ 3 ∷ 4 ∷ 5 ∷ 6 ∷ [];
  fallback_celsius = pos 1500;
  firmware_version = (pos 3, pos 8, pos 2);
}

eaf-IsReady : IsReady fixed_point simulated_focuser contract eaf
eaf-IsReady = record {
  register_byte = omega arith;
  settings_byte = omega arith;
  serial_size = omega arith;
  serial_bytes = omega arith;
  major = omega arith;
  minor = omega arith;
  patch = omega arith;
  focuser_safe = running-IsSafe;
}

eaf-Configured :
    Configured fixed_point fixed_point-IsFloat simulated_focuser contract (pos 1500) (3, 8, 2) eaf
unfolding encode_temperature clamp_u16
eaf-Configured = record {
  version = refl;
  centi_low = omega arith;
  centi_high = omega arith;
  fallback = refl;
}

running-Measures : Measures fixed_point fixed_point-IsFloat simulated_focuser contract
running-Measures = λ s h. (h.temperature_low, h.temperature_high)

-- A read of the state, a malformed report, a move and the state again
abbrev session : List FeatureRequest
session =
    get_feature 16
    ∷ set_feature 3 (0x7e ∷ 0 ∷ [])
    ∷ set_feature 3 go_300_buffer
    ∷ get_feature 63
    ∷ []

abbrev persona : EafPersona simulated_focuser
persona = mirror fixed_point simulated_focuser (pos 1500) (3, 8, 2) eaf

session_run :
    (firmware_serve simulated_focuser session persona).0
    ≡ some (0x7e ∷ 0x5a ∷ 3 ∷ 1 ∷ 0 ∷ 0 ∷ 0 ∷ 0 ∷ 100 ∷ 0 ∷ 0x7d ∷ 0 ∷ 1 ∷ 0x75 ∷ 0x30 ∷ [])
      ∷ none
      ∷ none
      ∷ some (0x7e ∷ 0x5a ∷ 3 ∷ 1 ∷ 0 ∷ 0 ∷ 0 ∷ 0 ∷ 100 ∷ 0 ∷ 0x7d ∷ 0 ∷ 3 ∷ 0x75 ∷ 0x30 ∷ [])
      ∷ []
unfolding firmware_serve deliver set_report_cb get_report_cb apply_command firmware_reply
    switch_pending state_reply_body parse_command encode_state frame_reply
session_run = refl

firmware_serve-agrees_example :
    ((firmware_serve simulated_focuser session persona).0
      ≡ map
          (payload_of fixed_point fixed_point-IsFloat simulated_focuser contract
            (pos 1500)
            (3, 8, 2))
          (serve fixed_point simulated_focuser (map on_wire session) eaf).0)
    × ((firmware_serve simulated_focuser session persona).1
        ≡ mirror fixed_point simulated_focuser
            (pos 1500)
            (3, 8, 2)
            (serve fixed_point simulated_focuser (map on_wire session) eaf).1)
unfolding Host.parse_command Host.parse_state
firmware_serve-agrees_example =
    firmware_serve-agrees fixed_point fixed_point-IsFloat simulated_focuser contract (pos 1500)
      (3, 8, 2) session eaf running-Measures eaf-IsReady eaf-Configured (omega arith)

abbrev pub serial_bytes : Bytes
serial_bytes = 0x60 ∷ 0 ∷ 1 ∷ 2 ∷ 3 ∷ 4 ∷ 5 ∷ 0xfe ∷ []

serial_run :
    load_serial (b'6' ∷ b'0' ∷ b'F' ∷ b'e' ∷ b'x' ∷ b'0' ∷ []) ≡ ljust 12 (0x60 ∷ 0xfe ∷ [])
unfolding load_serial load_bytes
serial_run = refl

-- A malformed digit behind two bytes
load_serial-cased_text_example :
    load_serial (cased_text (λ n. true) (0x60 ∷ 0xfe ∷ []) ++ (b'x' ∷ b'0' ∷ []))
    ≡ ljust 12 (take 8 (0x60 ∷ 0xfe ∷ []))
load_serial-cased_text_example =
    load_serial-cased_text (λ n. true) (0x60 ∷ 0xfe ∷ []) (b'x' ∷ b'0' ∷ []) (omega arith)
      (inl (inl (inr (inr (inr (omega arith))))))

serial_arg-load_serial_example :
    (serial_arg (hex_text serial_bytes) ≡ ok serial_bytes)
    × (load_serial (hex_text serial_bytes) ≡ ljust 12 serial_bytes)
serial_arg-load_serial_example = serial_arg-load_serial serial_bytes (omega arith) refl

-- Rounds of 10.9 milliseconds, of which each spends ten
abbrev readings : List ℕ
readings = 10_900 ∷ 21_800 ∷ []

lagging : (loop_rounds advance readings (0, running)).1 ≡ advance 20 running
unfolding loop_rounds loop_round advance
lagging = refl

loop_rounds-lag_example :
    (total : ℕ) × ((loop_rounds advance readings (0, running)).1 ≡ advance total running)
    × (0 + 1000 * total ≤ last_of 0 readings)
    × (last_of 0 readings < 0 + 1000 * total + 1000 * suc (length readings))
loop_rounds-lag_example = loop_rounds-lag 50 readings 0 running refl (omega arith)
