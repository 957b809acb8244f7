-- ===== src/Persona/Protocol.antt =====
-- host/src/zwoproxy/personas/protocol.py: reports of the host decoded, replies encoded.
pub mod Parse
pub mod Encode
pub mod Tests
use zwo_eaf_proxy.Base.{
  ℕ, ◌+◌, ◌-◌, ◌%◌, ◌^◌, ◌≡◌, Bool, true, false, not, ◌&&◌, Option, none, some, List, [], ◌∷◌, ◌++◌,
  ltb, ◌==◌, if◌then◌else◌, length, get_or, slice,
}
use zwo_eaf_proxy.Base.Int.{ℤ, pos, pos_part, ◌+ℤ◌, ◌-ℤ◌, leb_ℤ, min_ℤ, max_ℤ}
use zwo_eaf_proxy.Base.Result.{Result, ok, err, ◌>>=◌}
use zwo_eaf_proxy.Base.Bytes.{Bytes, bytes_eq, from_bytes, to_bytes, ljust}
use zwo_eaf_proxy.Float.{Float}
use zwo_eaf_proxy.Persona.Eaf
use zwo_eaf_proxy.Persona.Eaf.{
  body_size, identity_model, magic, report_in, report_out, temperature_bias, temperature_scale,
  Version,
}

abbrev pub settings_base : ℕ
settings_base = 0x01

abbrev pub settings_reverse : ℕ
settings_reverse = 0x02

-- The reasons with which `parse_command` raises `MalformedReport`.
pub data MalformedReport : Type 0 where
  too_short : ℕ → MalformedReport
  unexpected_report_id : ℕ → MalformedReport
  bad_magic : Bytes → MalformedReport
  truncated : MalformedReport
  unhandled_register : ℕ → MalformedReport

-- The reasons with which the encoders raise `ValueError`.
pub data ValueError : Type 0 where
  body_length : ℕ → ValueError
  position_out_of_range : ℤ → ValueError
  version_parts : Version → ValueError
  serial_length : ℕ → ValueError

pub record WriteState : Type 0 where
  pub go : Bool
  pub position : ℕ
  pub sync : Bool
  pub settings : Option ℕ

pub data Command : Type 0 where
  read_register : ℕ → Command
  write_state : WriteState → Command

-- `bool(n)`
abbrev pub truth : ℕ → Bool
truth n = not (n == 0)

-- What `parse_command` makes of the body of a state write. An index is read below the length only,
-- so the default of `get_or` is never used.
unfoldable pub parse_state : Bytes → Result MalformedReport Command
parse_state body =
    if ltb (length body) 6
    then err truncated
    else ok (
        write_state (record {
          go = truth (get_or body 0 0);
          position = from_bytes (slice 2 6 body);
          sync = ltb 6 (length body) && truth (get_or body 6 0);
          settings = if ltb 9 (length body) then some (get_or body 9 0) else none;
        }))

unfoldable pub parse_command : Bytes → Result MalformedReport Command
parse_command report =
    if ltb (length report) 5
    then err (too_short (length report))
    else if not (get_or report 0 0 == report_out)
    then err (unexpected_report_id (get_or report 0 0))
    else if not (bytes_eq (slice 1 3 report) magic)
    then err (bad_magic (slice 1 3 report))
    else if get_or report 3 0 == Eaf.Register.read
    then ok (read_register (get_or report 4 0))
    else if get_or report 3 0 == Eaf.Register.state
    then parse_state (slice 4 (4 + body_size) report)
    else err (unhandled_register (get_or report 3 0))

-- The assertion on the length of the reply holds by the test before it (see `frame_reply_lem`).
unfoldable pub frame_reply : ℕ → Bytes → Result ValueError Bytes
frame_reply register body =
    if not (length body == body_size)
    then err (body_length (length body))
    else ok ((report_in ∷ []) ++ (magic ++ (register ∷ body)))

-- `max(0, min(0xFFFF, raw))`
unfoldable pub clamp_u16 : ℤ → ℕ
clamp_u16 raw = pos_part (max_ℤ (pos 0) (min_ℤ (pos 0xFFFF) raw))

module _ (f : Float) where
  unfoldable pub encode_temperature : f.F → ℕ
  encode_temperature celsius =
      clamp_u16 (f.round (f.mul celsius (f.of_int (pos temperature_scale))) +ℤ pos temperature_bias)

  unfoldable pub decode_temperature : ℤ → f.F
  decode_temperature raw =
      f.div (f.of_int (raw -ℤ pos temperature_bias)) (f.of_int (pos temperature_scale))

  unfoldable pub encode_state : Bool → ℤ → f.F → ℕ → Result ValueError Bytes
  encode_state moving position celsius settings =
      if not (leb_ℤ (pos 0) position && leb_ℤ position (pos 0xFFFFFFFF))
      then err (position_out_of_range position)
      else ok (
          ((if moving then 1 else 0) ∷ 0 ∷ [])
          ++ (to_bytes 4 (pos_part position)
              ++ ((0 ∷ [])
                  ++ (to_bytes 2 (encode_temperature celsius)
                      ++ ((settings % 256 ∷ []) ++ to_bytes 2 temperature_bias)))))

-- `0 <= part <= 0xFF`
abbrev pub is_byte_part : ℤ → Bool
is_byte_part part = leb_ℤ (pos 0) part && leb_ℤ part (pos 0xFF)

unfoldable pub identity_body : Version → Result ValueError Bytes
identity_body version =
    if not (is_byte_part version.0 && (is_byte_part version.1 && is_byte_part version.2))
    then err (version_parts version)
    else ok (
        ljust body_size
          ((pos_part version.0 ∷ pos_part version.1 ∷ pos_part version.2 ∷ []) ++ identity_model))

unfoldable pub serial_body : Bytes → Result ValueError Bytes
serial_body serial =
    if ltb body_size (length serial)
    then err (serial_length (length serial))
    else ok (ljust body_size serial)

unfoldable pub zero_body : Bytes
zero_body = 0 ∷ 0 ∷ 0 ∷ 0 ∷ 0 ∷ 0 ∷ 0 ∷ 0 ∷ 0 ∷ 0 ∷ 0 ∷ 0 ∷ []
