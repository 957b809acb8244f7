-- ===== src/Float.antt =====
-- Python's `float`, which the program takes as given: a type with the operations that the program
-- applies to it, and the laws of IEEE 754 arithmetic that the theorems rest on. `F` stands for the
-- finite floats: no value of the program is an infinity or a NaN.
pub mod FixedPoint
use zwo_eaf_proxy.Base.{ℕ, ◌^◌, ◌-◌, ◌≤◌, ◌≡◌, Bool, true, false, not}
use zwo_eaf_proxy.Base.Int.{ℤ, pos, negsuc, ◌≤ℤ◌}

pub record Float : Type 1 where
  pub F : Type 0
  -- `float(n)`, also where an int meets a float in an operation
  pub of_int : ℤ → F
  pub add : F → F → F
  pub sub : F → F → F
  pub mul : F → F → F
  pub div : F → F → F
  pub neg : F → F
  pub abs : F → F
  -- `a <= b` and `a == b`
  pub le : F → F → Bool
  pub eq : F → F → Bool
  -- `int(a)` cuts the fraction off, `round(a)` goes to the nearest integer
  pub trunc : F → ℤ
  pub round : F → ℤ

-- `a <= b` as a proposition.
abbrev pub Le : (f : Float) → f.F → f.F → Type 0
Le f a b = f.le a b ≡ true

-- Rounding keeps the order and fixes what is a float already; the laws follow from that.
pub record IsFloat (f : Float) : Type 0 where
  pub le_refl : (a : f.F) → Le f a a
  pub le_trans : (a b c : f.F) → Le f a b → Le f b c → Le f a c
  pub le_total : (a b : f.F) → f.le a b ≡ false → Le f b a
  pub of_int_mono : (m n : ℤ) → m ≤ℤ n → Le f (f.of_int m) (f.of_int n)
  pub trunc_mono : (a b : f.F) → Le f a b → f.trunc a ≤ℤ f.trunc b
  -- an integer of at most 53 bits is a float
  pub trunc_of_int :
      (n : ℤ) → negsuc (2 ^ 53 - 1) ≤ℤ n → n ≤ℤ pos (2 ^ 53) → f.trunc (f.of_int n) ≡ n
  -- the integral part of a float is a float, and is nearer to zero
  pub trunc_below : (a : f.F) → Le f (f.of_int (pos 0)) a → Le f (f.of_int (f.trunc a)) a
  pub sub_nonneg : (a b : f.F) → Le f a b → Le f (f.of_int (pos 0)) (f.sub b a)
  pub mul_nonneg :
      (a b : f.F)
      → Le f (f.of_int (pos 0)) a
      → Le f (f.of_int (pos 0)) b
      → Le f (f.of_int (pos 0)) (f.mul a b)
  -- a difference is zero only between equal numbers
  pub sub_zero : (a b : f.F) → f.eq (f.sub a b) (f.of_int (pos 0)) ≡ true → Le f a b × Le f b a
  -- a step that is shorter than the rounded way to `t` does not pass `t`
  pub add_before :
      (p s t : f.F)
      → f.le (f.sub t p) (f.of_int (pos 0)) ≡ false
      → f.le (f.abs (f.sub t p)) s ≡ false
      → Le f (f.add p s) t
  pub sub_before :
      (p s t : f.F)
      → Le f (f.sub t p) (f.of_int (pos 0))
      → f.le (f.abs (f.sub t p)) s ≡ false
      → Le f t (f.add p (f.neg s))
  pub add_up : (p s : f.F) → Le f (f.of_int (pos 0)) s → Le f p (f.add p s)
  pub sub_down : (p s : f.F) → Le f (f.of_int (pos 0)) s → Le f (f.add p (f.neg s)) p
  -- a division by 100 and the product with 100 lose less than a half
  pub round_hundredths :
      (n : ℤ)
      → negsuc (2 ^ 32 - 1) ≤ℤ n
      → n ≤ℤ pos (2 ^ 32)
      → f.round (f.mul (f.div (f.of_int n) (f.of_int (pos 100))) (f.of_int (pos 100))) ≡ n
