-- ===== src/Proxy/Tests.antt =====
-- Runs of the emulated device on the simulated focuser, and the theorems at concrete inputs.
use zwo_eaf_proxy.Base.{ℕ, ◌≡◌, refl, Option, some, List, [], ◌∷◌, ◌++◌, arith, length}
use zwo_eaf_proxy.Base.Int.{pos, ◌≤ℤ◌}
use zwo_eaf_proxy.Base.Result.{ok, Yields}
use zwo_eaf_proxy.Base.Bytes.{Bytes}
use zwo_eaf_proxy.Float.FixedPoint.{fixed_point, fixed_point-IsFloat}
use zwo_eaf_proxy.Focuser.{Focuser}
use zwo_eaf_proxy.Simulated.{simulated, moved, advance, position, is_moving, move_to, temperature}
use zwo_eaf_proxy.Simulated.Safety.{contract}
use zwo_eaf_proxy.Persona.Protocol.{
  parse_command, parse_state, encode_state, encode_temperature, clamp_u16, frame_reply,
}
use zwo_eaf_proxy.Persona.Protocol.Parse.{write_report, read_report}
use zwo_eaf_proxy.Persona.Protocol.Encode.{Shows}
use zwo_eaf_proxy.Persona.Device.{
  Device, Request, set_report, get_report, apply, state_body, reply_body, stored_settings,
  current_reply, handle_set_report, serve, reported_celsius,
}
use zwo_eaf_proxy.Persona.Device.Safety.{AllAnswered, IsReady, serve-Answers}
use zwo_eaf_proxy.Persona.Device.Session.{
  reply_frame, serve-settings, serve-understood, understood, last_named,
}
use zwo_eaf_proxy.Persona.Device.Registers.{settings_echo, state_reply}
use zwo_eaf_proxy.Text.{Text, int_of, signed_value, digits_value, lstrip, rstrip}
use zwo_eaf_proxy.Cli.{serial_arg, fromhex, version_arg, version_parts}
use zwo_eaf_proxy.Proxy.{Args, persona}
use zwo_eaf_proxy.Proxy.Command.{command_args, command_answers}
use zwo_eaf_proxy.Simulated.Tests.{clock, clock-IsMonotonic, running, running-IsSafe}
use zwo_eaf_proxy.Persona.Protocol.Tests.{go_300, go_300_report}

abbrev focuser : Focuser
focuser = simulated fixed_point clock

abbrev eaf : Device fixed_point focuser
eaf = record {
  focuser = running;
  pending = 3;
  settings = 1;
  serial = 0x60 ∷ 0 ∷ 1 ∷ 2 ∷ 3 ∷ 4 ∷ 5 ∷ 6 ∷ [];
  fallback_celsius = pos 2000;
  firmware_version = (pos 3, pos 8, pos 2);
}

eaf-IsReady :
    IsReady fixed_point focuser
      (contract fixed_point fixed_point-IsFloat clock clock-IsMonotonic)
      eaf
eaf-IsReady = record {
  register_byte = omega arith;
  settings_byte = omega arith;
  serial_size = omega arith;
  serial_bytes = omega arith;
  major = omega arith;
  minor = omega arith;
  patch = omega arith;
  focuser_safe = running-IsSafe;
}

-- A read of the state, a malformed report, a move and two reads.
abbrev session : List Request
session =
    set_report (read_report 3)
    ∷ get_report 17
    ∷ set_report (3 ∷ 0x7e ∷ 0 ∷ [])
    ∷ set_report go_300_report
    ∷ get_report 17
    ∷ set_report (read_report 4)
    ∷ get_report 8
    ∷ []

-- One second on: two steps further, moving, 18.50 degrees, and the settings byte.
state_run :
    (current_reply fixed_point focuser eaf).0
    ≡ ok (1 ∷ 0x7e ∷ 0x5a ∷ 3 ∷ 1 ∷ 0 ∷ 0 ∷ 0 ∷ 0 ∷ 14 ∷ 0 ∷ 0x7c ∷ 0x6a ∷ 1 ∷ 0x75 ∷ 0x30 ∷ [])
unfolding current_reply reply_body state_body encode_state encode_temperature clamp_u16 frame_reply
    reported_celsius temperature is_moving position advance moved
state_run = refl

serve-Answers_example :
    AllAnswered session (serve fixed_point focuser session eaf).0
    × IsReady fixed_point focuser
        (contract fixed_point fixed_point-IsFloat clock clock-IsMonotonic)
        (serve fixed_point focuser session eaf).1
serve-Answers_example =
    serve-Answers fixed_point focuser
      (contract fixed_point fixed_point-IsFloat clock clock-IsMonotonic) session eaf (omega arith)
      eaf-IsReady

reply_frame_example :
    (body : Bytes) × (length body ≡ 12)
    × ((1 ∷ 0x7e ∷ 0x5a ∷ 3 ∷ 1 ∷ 0 ∷ 0 ∷ 0 ∷ 0 ∷ 14 ∷ 0 ∷ 0x7c ∷ 0x6a ∷ 1 ∷ 0x75 ∷ 0x30 ∷ [])
        ≡ 1 ∷ 0x7e ∷ 0x5a ∷ last_named [] 3 ∷ body)
unfolding serve
reply_frame_example =
    reply_frame fixed_point focuser [] eaf
      (1 ∷ 0x7e ∷ 0x5a ∷ 3 ∷ 1 ∷ 0 ∷ 0 ∷ 0 ∷ 0 ∷ 14 ∷ 0 ∷ 0x7c ∷ 0x6a ∷ 1 ∷ 0x75 ∷ 0x30 ∷ [])
      state_run

-- The reply that follows the move: register 3, moving, and the Reverse bit in byte 13.
after_go :
    (current_reply fixed_point focuser
      (handle_set_report fixed_point focuser (write_report 0x75 0x30 go_300 ++ (9 ∷ [])) eaf).1).0
    ≡ ok (1 ∷ 0x7e ∷ 0x5a ∷ 3 ∷ 1 ∷ 0 ∷ 0 ∷ 0 ∷ 0 ∷ 16 ∷ 0 ∷ 0x7c ∷ 0x6a ∷ 3 ∷ 0x75 ∷ 0x30 ∷ [])
unfolding current_reply reply_body state_body encode_state encode_temperature clamp_u16 frame_reply
    reported_celsius temperature is_moving position advance moved handle_set_report apply
    stored_settings move_to parse_command parse_state
after_go = refl

settings_echo_example : ◌≡◌ {A = ℕ} 3 3
settings_echo_example =
    settings_echo fixed_point focuser go_300 0x75 0x30 3 (9 ∷ []) eaf
      (1 ∷ 0x7e ∷ 0x5a ∷ 3 ∷ 1 ∷ 0 ∷ 0 ∷ 0 ∷ 0 ∷ 16 ∷ 0 ∷ 0x7c ∷ 0x6a ∷ 3 ∷ 0x75 ∷ 0x30 ∷ [])
      (omega arith) refl (omega arith) after_go

state_reply_example :
    (pos 0
      ≤ℤ (position fixed_point clock
          (is_moving fixed_point clock (temperature fixed_point clock running).1).1).0)
    × Shows fixed_point
        (is_moving fixed_point clock (temperature fixed_point clock running).1).0
        14
        (reported_celsius fixed_point (pos 2000) (pos 1850))
        1
        (1 ∷ 0 ∷ 0 ∷ 0 ∷ 0 ∷ 14 ∷ 0 ∷ 0x7c ∷ 0x6a ∷ 1 ∷ 0x75 ∷ 0x30 ∷ [])
unfolding temperature position is_moving advance moved
state_reply_example = state_reply fixed_point focuser eaf _ refl state_run

serve-settings_example : (serve fixed_point focuser session eaf).1.settings ≡ 3
unfolding parse_command parse_state
serve-settings_example = serve-settings fixed_point focuser session eaf

serve-understood_example :
    (serve fixed_point focuser (understood session) eaf).1
    ≡ (serve fixed_point focuser session eaf).1
serve-understood_example = serve-understood fixed_point focuser session eaf

-- The options "60:00:00:00:00:00:00:01" and "3.8.1"
abbrev serial_option : Option Text
serial_option = some (
    b'6' ∷ b'0' ∷ b':' ∷ b'0' ∷ b'0' ∷ b':' ∷ b'0' ∷ b'0' ∷ b':' ∷ b'0' ∷ b'0' ∷ b':' ∷ b'0' ∷ b'0'
    ∷ b':' ∷ b'0' ∷ b'0' ∷ b':' ∷ b'0' ∷ b'0' ∷ b':' ∷ b'0' ∷ b'1' ∷ [])

abbrev version_option : Option Text
version_option = some (b'3' ∷ b'.' ∷ b'8' ∷ b'.' ∷ b'1' ∷ [])

abbrev args : Args fixed_point
args = record {
  position = pos 7;
  rate = pos 50000;
  temperature = pos 2000;
  firmware_version_arg = some (pos 3, pos 8, pos 1);
  serial_arg = some (0x60 ∷ 0 ∷ 0 ∷ 0 ∷ 0 ∷ 0 ∷ 0 ∷ 1 ∷ []);
}

args_parsed :
    command_args fixed_point serial_option version_option (pos 7) (pos 50000) (pos 2000) ≡ ok args
unfolding command_args serial_arg fromhex version_arg version_parts int_of signed_value digits_value
    lstrip rstrip
args_parsed = refl

command_answers_example :
    Yields
      (λ d. AllAnswered session (serve fixed_point focuser session d).0)
      (persona fixed_point clock args)
command_answers_example =
    command_answers fixed_point clock serial_option version_option 7 (pos 50000) (pos 2000) args
      session fixed_point-IsFloat clock-IsMonotonic args_parsed (omega arith) refl (omega arith)
