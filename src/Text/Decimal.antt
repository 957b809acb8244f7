-- ===== src/Text/Decimal.antt =====
-- `int` reads back what `str` writes.
use mathlib.Core.Option
use zwo_eaf_proxy.Base.{
  ℕ, zero, suc, ◌+◌, ◌-◌, ◌*◌, ◌/◌, ◌%◌, ◌≤◌, ◌<◌, ◌≡◌, refl, sym, ap, ◌∙◌, Bool, true, false, ◌&&◌,
  some, [], ◌∷◌, ◌++◌, arith, ltb, lt→ltb, length, length-append, All, All-append, append_assoc,
  append-nil, Bool-cases, inl, inr,
}
use zwo_eaf_proxy.Base.Int.{pos}
use zwo_eaf_proxy.Text.{
  Text, lstrip, rstrip, is_space, all_chars, digits_value, signed_value, int_of, decimal_from,
  decimal,
}

abbrev pub IsDigit : ℕ → Type 0
IsDigit c = (48 ≤ c) × (c ≤ 57)

digit_step :
    (acc d : ℕ) (seen : Bool) (rest : Text)
    → d < 10
    → digits_value acc seen ((48 + d) ∷ rest) ≡ digits_value (acc * 10 + d) true rest
digit_step acc d seen rest h =
    let e : 48 + d - 48 ≡ d = omega arith in
    step ∙ ap (λ x. digits_value (acc * 10 + x) true rest) e
  where
    step :
        digits_value acc seen ((48 + d) ∷ rest) ≡ digits_value (acc * 10 + (48 + d - 48)) true rest
    step = unfold digits_value in ground arith

-- The digits of a number with more digits behind it.
digits_value-decimal_from :
    (k n : ℕ) (seen : Bool) (rest : Text)
    → n < k
    → digits_value 0 seen (decimal_from k n ++ rest) ≡ digits_value n true rest
unfolding decimal_from
digits_value-decimal_from zero n seen rest h = absurd (omega arith)
digits_value-decimal_from (suc k) n seen rest h =
    let zero-add : 0 * 10 + n ≡ n = omega arith in
    let whole : n / 10 * 10 + n % 10 ≡ n = omega arith in
    elim (Bool-cases (ltb n 10)) [
      | inl small ↦
          rw small
            (digit_step 0 n seen rest (ground arith) ∙ ap (λ m. digits_value m true rest) zero-add)
      | inr large ↦ rw large (
          ap (digits_value 0 seen) (append_assoc (decimal_from k (n / 10)) _ rest)
          ∙ digits_value-decimal_from k (n / 10) seen _ (ground arith)
          ∙ digit_step (n / 10) (n % 10) true rest (omega arith)
          ∙ ap (λ m. digits_value m true rest) whole)
    ]

decimal_from-IsDigit : (k n : ℕ) → All IsDigit (decimal_from k n)
unfolding decimal_from
decimal_from-IsDigit zero n = tt
decimal_from-IsDigit (suc k) n = ground (
  arith,
  All-append IsDigit (decimal_from k (n / 10)) ((48 + n % 10) ∷ [])
      (decimal_from-IsDigit k (n / 10)) (omega arith),
)

-- A text without the characters has nothing to strip.
pub rstrip_none : (p : ℕ → Bool) (t : Text) → All (λ c. p c ≡ false) t → rstrip p t ≡ t
unfolding rstrip
rstrip_none p [] h = refl
rstrip_none p (c ∷ cs) h = ground (arith, rstrip_none p cs h.1)

pub lstrip_none : (p : ℕ → Bool) (t : Text) → All (λ c. p c ≡ false) t → lstrip p t ≡ t
unfolding lstrip
lstrip_none p [] h = refl
lstrip_none p (c ∷ cs) h = ground arith

all_chars-append :
    (p : ℕ → Bool) (s t : Text) → all_chars p t ≡ true → all_chars p (s ++ t) ≡ all_chars p s
all_chars-append p [] t h = h
all_chars-append p (c ∷ s) t h = ap (λ b. p c && b) (all_chars-append p s t h)

rstrip_all : (p : ℕ → Bool) (t : Text) → all_chars p t ≡ true → rstrip p t ≡ []
unfolding rstrip
rstrip_all p [] h = refl
rstrip_all p (c ∷ cs) h = rw h

-- Characters that are all stripped can be left out at the end.
pub rstrip-append :
    (p : ℕ → Bool) (s t : Text) → all_chars p t ≡ true → rstrip p (s ++ t) ≡ rstrip p s
unfolding rstrip
rstrip-append p [] t h = rstrip_all p t h
rstrip-append p (c ∷ s) t h = rw (all_chars-append p s t h, rstrip-append p s t h)

pub All-weaken : (P Q : ℕ → Type 0) (t : Text) → ((c : ℕ) → P c → Q c) → All P t → All Q t
All-weaken P Q [] w h = tt
All-weaken P Q (c ∷ cs) w h = (w c h.0, All-weaken P Q cs w h.1)

pub decimal-IsDigit : (n : ℕ) → All IsDigit (decimal n)
unfolding decimal
decimal-IsDigit n = decimal_from-IsDigit (suc n) n

pub digit_not_space : (c : ℕ) → IsDigit c → is_space c ≡ false
digit_not_space c h = ground arith

-- Digits alone: no sign to read.
signed_value-IsDigit :
    (t : Text) → All IsDigit t → signed_value t ≡ Option.map pos (digits_value 0 false t)
unfolding signed_value digits_value
signed_value-IsDigit [] h = refl
signed_value-IsDigit (c ∷ cs) h = unsigned c cs h.0
  where
    unsigned :
        (c : ℕ) (cs : Text)
        → IsDigit c
        → signed_value (c ∷ cs) ≡ Option.map pos (digits_value 0 false (c ∷ cs))
    unsigned c cs h = ground arith

pub digits_value-decimal : (n : ℕ) → digits_value 0 false (decimal n) ≡ some n
unfolding decimal
digits_value-decimal n =
    ap (digits_value 0 false) (sym (append-nil _))
    ∙ digits_value-decimal_from (suc n) n false [] (omega arith)
    ∙ unfold digits_value in refl

-- `int(str(n))` is n.
pub int_of-decimal : (n : ℕ) → int_of (decimal n) ≡ some (pos n)
unfolding int_of
int_of-decimal n =
    let digits = decimal-IsDigit n in
    let spaceless =
      All-weaken IsDigit (λ c. is_space c ≡ false) (decimal n) digit_not_space digits in
    ap (λ t. signed_value (lstrip is_space t)) (rstrip_none is_space (decimal n) spaceless)
    ∙ ap signed_value (lstrip_none is_space (decimal n) spaceless)
    ∙ signed_value-IsDigit (decimal n) digits
    ∙ ap (Option.map pos) (digits_value-decimal n)

-- 10 ^ k
abbrev pub power_of_ten : ℕ → ℕ
power_of_ten zero = 1
power_of_ten (suc k) = 10 * power_of_ten k

length-decimal_from : (k m n : ℕ) → n < power_of_ten (suc m) → length (decimal_from k n) ≤ suc m
unfolding decimal_from
length-decimal_from zero m n h = omega arith
length-decimal_from (suc k) zero n h = rw (lt→ltb n 10 (omega arith)) (omega arith)
length-decimal_from (suc k) (suc m) n h =
    let ih = length-decimal_from k m (n / 10) (omega arith) in
    ground (arith, ih, length-append (decimal_from k (n / 10)) ((48 + n % 10) ∷ []))

-- A number below 10 ^ (m + 1) has at most m + 1 digits.
pub length-decimal : (m n : ℕ) → n < power_of_ten (suc m) → length (decimal n) ≤ suc m
unfolding decimal
length-decimal m n h = length-decimal_from (suc n) m n h
