-- ===== src/Firmware/Main/Serial.antt =====
-- The serial of the configuration is read as the host reads it.
use zwo_eaf_proxy.Base.{
  ℕ, zero, suc, ◌+◌, ◌-◌, ◌/◌, ◌%◌, ◌≤◌, ◌<◌, ◌≡◌, refl, sym, ap, ◌∙◌, false, ◌==◌, none, some, [],
  ◌∷◌, ◌++◌, false, ◌==◌, arith, length, All, ltb, if◌then◌else◌, append-nil, Bool, true, Option,
  take, take_all, ◌⊎◌, inl, inr,
}
use zwo_eaf_proxy.Base.Result.{ok}
use zwo_eaf_proxy.Base.Bytes.{Bytes, IsByte, ljust}
use zwo_eaf_proxy.Text.{Text}
use zwo_eaf_proxy.Cli.{fromhex, serial_arg, remove, hex_value, is_hex_space, hex_join}
use zwo_eaf_proxy.Firmware.Main.{digit_of, both_nibbles, load_bytes, load_serial}

-- A byte in hexadecimal digits
abbrev pub hex_digit : ℕ → ℕ
hex_digit d = if ltb d 10 then b'0' + d else b'a' + (d - 10)

abbrev pub hex_text : Bytes → Text
hex_text [] = []
hex_text (b ∷ bs) = hex_digit (b / 16) ∷ hex_digit (b % 16) ∷ hex_text bs

hex_value-hex_digit : (d : ℕ) → d < 16 → hex_value (hex_digit d) ≡ some d
hex_value-hex_digit d h = ground arith

-- The digits of a text may be capitals or not, as `capital` says of each place.
abbrev pub cased_digit : Bool → ℕ → ℕ
cased_digit capital d =
    if ltb d 10 then b'0' + d else if capital then b'A' + (d - 10) else b'a' + (d - 10)

abbrev pub cased_text : (ℕ → Bool) → Bytes → Text
cased_text capital [] = []
cased_text capital (b ∷ bs) =
    cased_digit (capital 0) (b / 16)
    ∷ cased_digit (capital 1) (b % 16)
    ∷ cased_text (λ n. capital (suc (suc n))) bs

-- A character that is no hexadecimal digit
abbrev pub IsNoDigit : ℕ → Type 0
IsNoDigit c = (c < b'0') ⊎ (b'9' < c × c < b'A') ⊎ (b'F' < c × c < b'a') ⊎ (b'f' < c)

-- What stands behind the bytes: the end, a single character, or a pair in which one is no digit
abbrev pub Stops : Text → Type 0
Stops [] = Unit {0}
Stops (a ∷ []) = Unit {0}
Stops (a ∷ b ∷ rest) = IsNoDigit a ⊎ IsNoDigit b

digit_of-cased_digit : (capital : Bool) (d : ℕ) → d < 16 → digit_of (cased_digit capital d) ≡ some d
digit_of-cased_digit true d h = ground arith
digit_of-cased_digit false d h = ground arith

digit_of-IsNoDigit : (c : ℕ) → IsNoDigit c → digit_of c ≡ none
digit_of-IsNoDigit c (inl h) = ground arith
digit_of-IsNoDigit c (inr (inl h)) = ground arith
digit_of-IsNoDigit c (inr (inr (inl h))) = ground arith
digit_of-IsNoDigit c (inr (inr (inr h))) = ground arith

stopped :
    (a b : ℕ) (rest : Bytes)
    → IsNoDigit a ⊎ IsNoDigit b
    → both_nibbles (digit_of a) (digit_of b) rest ≡ []
stopped a b rest (inl h) = rw (digit_of-IsNoDigit a h) refl
stopped a b rest (inr h) = rw (digit_of-IsNoDigit b h) (by_high (digit_of a))
  where
    by_high : (o : Option ℕ) → both_nibbles o none rest ≡ []
    by_high none = refl
    by_high (some high) = refl

load_bytes-cased_text :
    (count : ℕ) (capital : ℕ → Bool) (s : Bytes) (rest : Text)
    → All IsByte s
    → Stops rest ⊎ (count ≤ length s)
    → load_bytes count (cased_text capital s ++ rest) ≡ take count s
unfolding load_bytes
load_bytes-cased_text zero capital s rest h r = refl
load_bytes-cased_text (suc count) capital [] [] h r = refl
load_bytes-cased_text (suc count) capital [] (a ∷ []) h r = refl
load_bytes-cased_text (suc count) capital [] (a ∷ b ∷ rest) h (inl r) = stopped a b _ r
load_bytes-cased_text (suc count) capital [] (a ∷ b ∷ rest) h (inr r) = absurd (omega arith)
load_bytes-cased_text (suc count) capital (b ∷ s) rest h r =
    let later = λ (n : ℕ). capital (suc (suc n)) in
    let tail = load_bytes count (cased_text later s ++ rest) in
    ap (λ o. both_nibbles o (digit_of (cased_digit (capital 1) (b % 16))) tail)
      (digit_of-cased_digit (capital 0) (b / 16) (omega (arith, h.0)))
    ∙ ap (λ o. both_nibbles (some (b / 16)) o tail)
        (digit_of-cased_digit (capital 1) (b % 16) (omega arith))
    ∙ ap (λ n. n ∷ tail) (omega (arith, h.0))
    ∙ ap (λ t. b ∷ t) (load_bytes-cased_text count later s rest h.1 (shorter r))
  where
    shorter : Stops rest ⊎ (suc count ≤ length (b ∷ s)) → Stops rest ⊎ (count ≤ length s)
    shorter (inl e) = inl e
    shorter (inr e) = inr (omega arith)

-- `LoadSerial` on a text that begins with bytes in hexadecimal digits, capitals or not, takes the first eight
-- of them, where behind them there is the end of the text, a single character, a pair in which one is no
-- digit, or, behind eight or more of them, anything; it leaves the rest of the twelve bytes zero.
pub load_serial-cased_text :
    (capital : ℕ → Bool) (s : Bytes) (rest : Text)
    → All IsByte s
    → Stops rest ⊎ (8 ≤ length s)
    → load_serial (cased_text capital s ++ rest) ≡ ljust 12 (take 8 s)
unfolding load_serial
load_serial-cased_text capital s rest h r =
    ap (ljust 12) (load_bytes-cased_text 8 capital s rest h r)

hex_digit-not_space : (d : ℕ) → d < 16 → is_hex_space (hex_digit d) ≡ false
hex_digit-not_space d h = ground arith

fromhex-hex_text : (s : Bytes) → All IsByte s → fromhex (hex_text s) ≡ some s
unfolding fromhex
fromhex-hex_text [] h = refl
fromhex-hex_text (b ∷ s) h =
    let high : b / 16 < 16 = omega (arith, h.0) in
    let low : b % 16 < 16 = omega arith in
    rw (hex_digit-not_space (b / 16) high) (
      ap (λ o. hex_join o (hex_value (hex_digit (b % 16))) (fromhex (hex_text s)))
        (hex_value-hex_digit (b / 16) high)
      ∙ ap (λ o. hex_join (some (b / 16)) o (fromhex (hex_text s)))
          (hex_value-hex_digit (b % 16) low)
      ∙ ap (hex_join (some (b / 16)) (some (b % 16))) (fromhex-hex_text s h.1)
      ∙ ap (λ n. some (n ∷ s)) (omega arith))

remove-hex_text :
    (c : ℕ) (s : Bytes)
    → All IsByte s
    → ((d : ℕ) → d < 16 → (hex_digit d == c) ≡ false)
    → remove c (hex_text s) ≡ hex_text s
remove-hex_text c [] h k = refl
remove-hex_text c (b ∷ s) h k =
    let high = k (b / 16) (omega (arith, h.0)) in
    let low = k (b % 16) (omega arith) in rw (high, low, remove-hex_text c s h.1 k) refl

hex_text-cased_text : (s : Bytes) → hex_text s ≡ cased_text (λ n. false) s
hex_text-cased_text [] = refl
hex_text-cased_text (b ∷ s) =
    ap (λ t. hex_digit (b / 16) ∷ hex_digit (b % 16) ∷ t) (hex_text-cased_text s)

-- The hexadecimal text of a serial of eight bytes is read to these bytes by the command line of the host
-- and by `LoadSerial` of the firmware alike.
pub serial_arg-load_serial :
    (s : Bytes)
    → All IsByte s
    → length s ≡ 8
    → (serial_arg (hex_text s) ≡ ok s) × (load_serial (hex_text s) ≡ ljust 12 s)
unfolding serial_arg
serial_arg-load_serial s h k =
    let plain =
      λ (c : ℕ) (d : (d : ℕ) → d < 16 → (hex_digit d == c) ≡ false). remove-hex_text c s h d in
    (
      rw
          (
            serial_arg,
            plain 58 (λ d e. ground arith),
            plain 45 (λ d e. ground arith),
            plain 32 (λ d e. ground arith),
            fromhex-hex_text s h,
            k,
          )
          refl,
      ap load_serial (hex_text-cased_text s ∙ sym (append-nil _))
          ∙ load_serial-cased_text (λ n. false) s [] h (inl tt)
          ∙ ap (ljust 12) (take_all 8 s (omega arith)),
    )
