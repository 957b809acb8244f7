-- ===== src/Cli.antt =====
-- host/src/zwoproxy/cli.py: the argument parsers `_serial` and `_version`.
pub mod Arguments
mod Tests
use zwo_eaf_proxy.Base.{
  ℕ, ◌+◌, ◌-◌, ◌*◌, Bool, true, false, not, ◌&&◌, ◌||◌, Option, none, some, List, [], ◌∷◌, leb,
  ◌==◌, if◌then◌else◌, length,
}
use zwo_eaf_proxy.Base.Int.{ℤ, pos, leb_ℤ}
use zwo_eaf_proxy.Base.Result.{Result, ok, err, ◌>>=◌}
use zwo_eaf_proxy.Base.Bytes.{Bytes}
use zwo_eaf_proxy.Persona.Eaf.{Version}
use zwo_eaf_proxy.Text.{Text, int_of, split}
use mathlib.Core.Option

-- The reasons of `argparse.ArgumentTypeError`.
pub data ArgumentError : Type 0 where
  not_hex : Text → ArgumentError
  serial_not_8_bytes : ℕ → ArgumentError
  not_three_parts : Text → ArgumentError
  not_numeric : Text → ArgumentError
  part_out_of_range : Text → ArgumentError

-- `text.replace(c, "")`
abbrev pub remove : ℕ → Text → Text
remove c [] = []
remove c (x ∷ xs) = if x == c then remove c xs else x ∷ remove c xs

-- The value of a hexadecimal digit.
abbrev pub hex_value : ℕ → Option ℕ
hex_value c =
    if leb 48 c && leb c 57
    then some (c - 48)
    else if leb 97 c && leb c 102
    then some (c - 87)
    else if leb 65 c && leb c 70
    then some (c - 55)
    else none

-- The white space that `bytes.fromhex` skips between bytes.
abbrev pub is_hex_space : ℕ → Bool
is_hex_space c = (leb 9 c && leb c 13) || c == 32

-- A byte of two digits, in front of the bytes behind it.
abbrev pub hex_join : Option ℕ → Option ℕ → Option Bytes → Option Bytes
hex_join none l rest = none
hex_join (some h) none rest = none
hex_join (some h) (some l) rest = Option.map (λ bs. (h * 16 + l) ∷ bs) rest

-- `bytes.fromhex(text)`; `none` is its ValueError.
unfoldable pub fromhex : Text → Option Bytes
fromhex [] = some []
fromhex (c ∷ []) = if is_hex_space c then some [] else none
fromhex (c ∷ d ∷ cs) =
    let skipped = fromhex (d ∷ cs) in
    let rest = fromhex cs in
    if is_hex_space c then skipped else hex_join (hex_value c) (hex_value d) rest

unfoldable pub serial_arg : Text → Result ArgumentError Bytes
serial_arg text = elim (fromhex (remove 32 (remove 45 (remove 58 text)))) [
  | none ↦ err (not_hex text)
  | some value ↦ if length value == 8 then ok value else err (serial_not_8_bytes (length value))
]

-- `0 <= v <= 255`
abbrev pub is_part : ℤ → Bool
is_part v = leb_ℤ (pos 0) v && leb_ℤ v (pos 255)

-- The three parts as integers, in `_version`.
unfoldable pub version_parts : Text → List Text → Result ArgumentError Version
version_parts text (a ∷ b ∷ c ∷ []) = elim (int_of a) [
  | none ↦ err (not_numeric text)
  | some x ↦ elim (int_of b) [
    | none ↦ err (not_numeric text)
    | some y ↦ elim (int_of c) [
      | none ↦ err (not_numeric text)
      | some z ↦
          if is_part x && (is_part y && is_part z)
          then ok (x, y, z)
          else err (part_out_of_range text)
    ]
  ]
]
version_parts text other = err (not_three_parts text)

unfoldable pub version_arg : Text → Result ArgumentError Version
version_arg text = version_parts text (split 46 text)
