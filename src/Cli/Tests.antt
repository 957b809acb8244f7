-- ===== src/Cli/Tests.antt =====
-- Arguments on the command line, and the theorems at concrete inputs.
use zwo_eaf_proxy.Base.{◌≡◌, refl, [], ◌∷◌}
use zwo_eaf_proxy.Base.Int.{pos}
use zwo_eaf_proxy.Base.Result.{ok, err}
use zwo_eaf_proxy.Base.Bytes.{Bytes}
use zwo_eaf_proxy.Text.{Text, rstrip, lstrip, int_of, signed_value, digits_value}
use zwo_eaf_proxy.Cli.{
  serial_arg, fromhex, version_arg, version_parts, part_out_of_range, serial_not_8_bytes,
}

-- "60:00 01-0a0B0c0d0e"
abbrev serial_text : Text
serial_text =
    b'6' ∷ b'0' ∷ b':' ∷ b'0' ∷ b'0' ∷ b' ' ∷ b'0' ∷ b'1' ∷ b'-' ∷ b'0' ∷ b'a' ∷ b'0' ∷ b'B' ∷ b'0'
    ∷ b'c' ∷ b'0' ∷ b'd' ∷ b'0' ∷ b'e' ∷ b'0' ∷ b'f' ∷ []

abbrev serial_value : Bytes
serial_value = 0x60 ∷ 0 ∷ 1 ∷ 10 ∷ 11 ∷ 12 ∷ 13 ∷ 14 ∷ []

serial_read :
    serial_arg (
      b'6' ∷ b'0' ∷ b':' ∷ b'0' ∷ b'0' ∷ b' ' ∷ b'0' ∷ b'1' ∷ b'-' ∷ b'0' ∷ b'a' ∷ b'0' ∷ b'B'
      ∷ b'0' ∷ b'c' ∷ b'0' ∷ b'd' ∷ b'0' ∷ b'e' ∷ [])
    ≡ ok serial_value
unfolding serial_arg fromhex
serial_read = refl

serial_too_long : serial_arg serial_text ≡ err (serial_not_8_bytes 9)
unfolding serial_arg fromhex
serial_too_long = refl

version_too_large :
    version_arg (b'3' ∷ b'.' ∷ b'8' ∷ b'.' ∷ b'2' ∷ b'5' ∷ b'6' ∷ [])
    ≡ err (part_out_of_range (b'3' ∷ b'.' ∷ b'8' ∷ b'.' ∷ b'2' ∷ b'5' ∷ b'6' ∷ []))
unfolding version_arg version_parts int_of rstrip lstrip signed_value digits_value
version_too_large = refl

-- "3.8.2"
version_read : version_arg (b'3' ∷ b'.' ∷ b'8' ∷ b'.' ∷ b'2' ∷ []) ≡ ok (pos 3, pos 8, pos 2)
unfolding version_arg version_parts int_of rstrip lstrip signed_value digits_value
version_read = refl
