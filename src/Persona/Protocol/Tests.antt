-- ===== src/Persona/Protocol/Tests.antt =====
-- Reports and replies, and the theorems of the codec at concrete bytes.
use zwo_eaf_proxy.Base.{◌≡◌, refl, true, false, some, [], ◌∷◌, arith}
use zwo_eaf_proxy.Base.Int.{pos}
use zwo_eaf_proxy.Base.Result.{ok, err, Yields}
use zwo_eaf_proxy.Base.Bytes.{Bytes}
use zwo_eaf_proxy.Float.FixedPoint.{fixed_point, fixed_point-IsFloat}
use zwo_eaf_proxy.Persona.Protocol.{
  write_state, WriteState, parse_command, parse_state, encode_state, encode_temperature,
  decode_temperature, truncated,
}
use zwo_eaf_proxy.Persona.Protocol.Parse.{parse-write_report}
use zwo_eaf_proxy.Persona.Protocol.Encode.{Shows, encode_state-Shows, encode-decode_temperature}

-- A move to step 300 with the Reverse bit set.
abbrev pub go_300 : WriteState
go_300 = record { go = true; position = 300; sync = false; settings = some 3 }

abbrev pub go_300_report : Bytes
go_300_report = 3 ∷ 0x7e ∷ 0x5a ∷ 3 ∷ 1 ∷ 0 ∷ 0 ∷ 0 ∷ 1 ∷ 0x2c ∷ 0 ∷ 0x75 ∷ 0x30 ∷ 3 ∷ 9 ∷ []

parse_go_300 : parse_command go_300_report ≡ ok (write_state go_300)
unfolding parse_command parse_state
parse_go_300 = refl

parse_short : parse_command (3 ∷ 0x7e ∷ 0x5a ∷ 3 ∷ 1 ∷ 0 ∷ 0 ∷ []) ≡ err truncated
unfolding parse_command parse_state
parse_short = refl

parse-write_report_example : parse_command go_300_report ≡ ok (write_state go_300)
parse-write_report_example = parse-write_report go_300 0x75 0x30 (9 ∷ []) (omega arith) tt

encode_state-Shows_example :
    Yields
      (Shows fixed_point true 70000 (pos 1850) 3)
      (encode_state fixed_point true (pos 70000) (pos 1850) 3)
encode_state-Shows_example = encode_state-Shows fixed_point true 70000 (pos 1850) 3 (omega arith)

encode-decode_temperature_example :
    encode_temperature fixed_point (decode_temperature fixed_point (pos 31850)) ≡ 31850
encode-decode_temperature_example =
    encode-decode_temperature fixed_point fixed_point-IsFloat 31850 (omega arith)
