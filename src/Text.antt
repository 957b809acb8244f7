-- ===== src/Text.antt =====
-- Python's text as a list of code points, with the methods of `str` and the `int` that the program
-- calls. `int` reads the decimal digits and the white space of ASCII: other code points, which
-- Python also takes for digits or spaces, are refused.
pub mod Decimal
use zwo_eaf_proxy.Base.{
  ℕ, zero, suc, ◌+◌, ◌-◌, ◌*◌, ◌/◌, ◌%◌, Bool, true, false, not, ◌&&◌, ◌||◌, Option, none, some,
  List, [], ◌∷◌, ◌++◌, ltb, leb, ◌==◌, if◌then◌else◌,
}
use zwo_eaf_proxy.Base.Int.{ℤ, pos, negsuc, ◌-ℤ◌}
use mathlib.Core.Option

abbrev pub Text : Type 0
Text = List ℕ

-- `text.lstrip(chars)`, for a set of characters given by its test.
unfoldable pub lstrip : (ℕ → Bool) → Text → Text
lstrip p [] = []
lstrip p (c ∷ cs) = if p c then lstrip p cs else c ∷ cs

-- Whether the test holds of every character.
abbrev pub all_chars : (ℕ → Bool) → Text → Bool
all_chars p [] = true
all_chars p (c ∷ cs) = p c && all_chars p cs

-- `text.rstrip(chars)`
unfoldable pub rstrip : (ℕ → Bool) → Text → Text
rstrip p [] = []
rstrip p (c ∷ cs) = let rest = rstrip p cs in if all_chars p (c ∷ cs) then [] else c ∷ rest

abbrev pub is_digit : ℕ → Bool
is_digit c = leb 48 c && leb c 57

-- Tab to carriage return, the four separators, and the blank.
abbrev pub is_space : ℕ → Bool
is_space c = (leb 9 c && leb c 13) || (leb 28 c && leb c 32)

-- Digits with single underscores between them; `seen` says that the last character was a digit.
unfoldable pub digits_value : ℕ → Bool → Text → Option ℕ
digits_value acc seen [] = if seen then some acc else none
digits_value acc seen (c ∷ cs) =
    let more = digits_value (acc * 10 + (c - 48)) true cs in
    let skip = digits_value acc false cs in
    if is_digit c then more else if c == 95 && seen then skip else none

-- The sign and the digits of an int literal.
unfoldable pub signed_value : Text → Option ℤ
signed_value [] = none
signed_value (c ∷ cs) =
    if c == 43
    then Option.map pos (digits_value 0 false cs)
    else if c == 45
    then Option.map (λ n. pos 0 -ℤ pos n) (digits_value 0 false cs)
    else Option.map pos (digits_value 0 false (c ∷ cs))

-- `int(text)`; `none` is its `ValueError`.
unfoldable pub int_of : Text → Option ℤ
int_of t = signed_value (lstrip is_space (rstrip is_space t))

-- `str(n)` for n ≥ 0, with fuel for the digits.
unfoldable pub decimal_from : ℕ → ℕ → Text
decimal_from zero n = []
decimal_from (suc k) n =
    let high = decimal_from k (n / 10) in
    if ltb n 10 then (48 + n) ∷ [] else high ++ ((48 + n % 10) ∷ [])

-- A number has no more digits than one more than its value.
unfoldable pub decimal : ℕ → Text
decimal n = decimal_from (suc n) n

-- Puts a character in front of the first part.
abbrev pub on_first : ℕ → List Text → List Text
on_first c [] = (c ∷ []) ∷ []
on_first c (p ∷ ps) = (c ∷ p) ∷ ps

-- `text.split(sep)`
abbrev pub split : ℕ → Text → List Text
split sep [] = [] ∷ []
split sep (c ∷ cs) = if c == sep then [] ∷ split sep cs else on_first c (split sep cs)

-- `text.partition(sep)`, without the separator
unfoldable pub partition : ℕ → Text → Text × Text
partition sep [] = ([], [])
partition sep (c ∷ cs) =
    let (before, behind) = partition sep cs in if c == sep then ([], cs) else (c ∷ before, behind)

-- `text.strip()`
abbrev pub strip : Text → Text
strip t = lstrip is_space (rstrip is_space t)
