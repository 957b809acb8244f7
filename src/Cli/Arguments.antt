-- ===== src/Cli/Arguments.antt =====
-- The values that the argument parsers accept.
use zwo_eaf_proxy.Base.{
  ℕ, ◌<◌, ◌≡◌, refl, Option, none, some, List, [], ◌∷◌, ◌++◌, arith, ◌==◌, if◌then◌else◌, length,
  All, Bool-cases, inl, inr,
}
use zwo_eaf_proxy.Base.Int.{pos}
use zwo_eaf_proxy.Base.Result.{ok, err}
use zwo_eaf_proxy.Base.Bytes.{Bytes, IsByte}
use zwo_eaf_proxy.Persona.Eaf.{Version}
use zwo_eaf_proxy.Persona.Protocol.Encode.{IsByteInt}
use zwo_eaf_proxy.Text.{split, Text, int_of, decimal}
use zwo_eaf_proxy.Text.Decimal.{IsDigit, decimal-IsDigit, int_of-decimal}
use zwo_eaf_proxy.Cli.{
  not_hex, serial_not_8_bytes, hex_join, serial_arg, fromhex, remove, hex_value, is_hex_space,
  version_parts, version_arg,
}
use mathlib.Core.Path.{subst}

split_digits : (s t : Text) → All IsDigit s → split 46 (s ++ (46 ∷ t)) ≡ s ∷ split 46 t
split_digits [] t h = refl
split_digits (c ∷ s) t h = ground (arith, split_digits s t h.1)

split_last : (s : Text) → All IsDigit s → split 46 s ≡ s ∷ []
split_last [] h = refl
split_last (c ∷ s) h = ground (arith, split_last s h.1)

version_parts_read :
    (text s t u : Text) (a b c : ℕ)
    → int_of s ≡ some (pos a)
    → int_of t ≡ some (pos b)
    → int_of u ≡ some (pos c)
    → a < 256
    → b < 256
    → c < 256
    → version_parts text (s ∷ t ∷ u ∷ []) ≡ ok (pos a, pos b, pos c)
unfolding version_parts
version_parts_read text s t u a b c ea eb ec ha hb hc = ground arith

-- A version in decimal digits with dots is accepted as written, if its parts are bytes.
pub version_arg-decimal :
    (a b c : ℕ)
    → a < 256
    → b < 256
    → c < 256
    → version_arg (decimal a ++ (46 ∷ decimal b ++ (46 ∷ decimal c))) ≡ ok (pos a, pos b, pos c)
unfolding version_arg
version_arg-decimal a b c ha hb hc =
    rw
      (
        split_digits (decimal a) (decimal b ++ (46 ∷ decimal c)) (decimal-IsDigit a),
        split_digits (decimal b) (decimal c) (decimal-IsDigit b),
        split_last (decimal c) (decimal-IsDigit c),
      )
      (version_parts_read _ (decimal a) (decimal b) (decimal c) a b c (int_of-decimal a)
        (int_of-decimal b) (int_of-decimal c) ha hb hc)

version_parts-IsByteInt :
    (text : Text) (parts : List Text) (v : Version)
    → version_parts text parts ≡ ok v
    → IsByteInt v.0 × IsByteInt v.1 × IsByteInt v.2
unfolding version_parts
version_parts-IsByteInt text [] v e = cc
version_parts-IsByteInt text (a ∷ []) v e = cc
version_parts-IsByteInt text (a ∷ b ∷ []) v e = cc
version_parts-IsByteInt text (a ∷ b ∷ c ∷ []) v e = ground arith
version_parts-IsByteInt text (a ∷ b ∷ c ∷ d ∷ ps) v e = cc

-- Every version that the command accepts has three parts of one byte.
pub version_arg-IsByteInt :
    (text : Text) (v : Version)
    → version_arg text ≡ ok v
    → IsByteInt v.0 × IsByteInt v.1 × IsByteInt v.2
unfolding version_arg
version_arg-IsByteInt text v e = version_parts-IsByteInt text (split 46 text) v e

abbrev IsNibble : Option ℕ → Type 0
IsNibble none = Unit
IsNibble (some h) = h < 16

abbrev AreBytes : Option Bytes → Type 0
AreBytes none = Unit
AreBytes (some b) = All IsByte b

hex_value-IsNibble : (c : ℕ) → IsNibble (hex_value c)
hex_value-IsNibble c = ground arith

hex_join-AreBytes :
    (h l : Option ℕ) (rest : Option Bytes)
    → IsNibble h
    → IsNibble l
    → AreBytes rest
    → AreBytes (hex_join h l rest)
hex_join-AreBytes none l rest p q r = tt
hex_join-AreBytes (some h) none rest p q r = tt
hex_join-AreBytes (some h) (some l) none p q r = tt
hex_join-AreBytes (some h) (some l) (some b) p q r = (omega arith, r)

fromhex-AreBytes : (t : Text) → AreBytes (fromhex t)
unfolding fromhex
fromhex-AreBytes [] = tt
fromhex-AreBytes (c ∷ []) = ground arith
fromhex-AreBytes (c ∷ d ∷ cs) = elim (Bool-cases (is_hex_space c)) [
  | inl blank ↦ rw blank (fromhex-AreBytes (d ∷ cs))
  | inr digit ↦
      rw digit (
        hex_join-AreBytes _ _ _ (hex_value-IsNibble c) (hex_value-IsNibble d) (fromhex-AreBytes cs))
]

-- Every serial that the command accepts has eight bytes.
pub serial_arg-bytes :
    (text : Text) (b : Bytes) → serial_arg text ≡ ok b → (length b ≡ 8) × All IsByte b
unfolding serial_arg
serial_arg-bytes text b e =
    of_hex (fromhex (remove 32 (remove 45 (remove 58 text)))) (fromhex-AreBytes _) e
  where
    of_hex :
        (r : Option Bytes)
        → AreBytes r
        → (elim r [
          | none ↦ err (not_hex text)
          | some value ↦
              if length value == 8 then ok value else err (serial_not_8_bytes (length value))
        ])
          ≡ ok b
        → (length b ≡ 8) × All IsByte b
    of_hex none h e = cc
    of_hex (some value) h e =
        let same : value ≡ b = ground arith in
        subst (λ x. (length x ≡ 8) × All IsByte x) same (ground arith, h)
