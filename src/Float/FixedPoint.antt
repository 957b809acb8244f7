-- ===== src/Float/FixedPoint.antt =====
-- Numbers with two decimals: an arithmetic that meets the laws of `IsFloat`, for concrete runs.
use zwo_eaf_proxy.Base.{◌+◌, ◌*◌, ◌/◌, ◌≡◌, true, false, arith, if◌then◌else◌, ◌==◌}
use zwo_eaf_proxy.Base.Int.{
  ℤ, pos, negsuc, pos_part, neg_part, sub_ℕ, ◌+ℤ◌, ◌-ℤ◌, ◌≤ℤ◌, leb_ℤ, eqb_ℤ,
}
use zwo_eaf_proxy.Float.{Float, IsFloat, Le}

-- A number of hundredths.
abbrev scaled : ℤ → ℤ
scaled n = sub_ℕ (100 * pos_part n) (100 * neg_part n)

abbrev product : ℤ → ℤ → ℤ
product a b =
    sub_ℕ ((pos_part a * pos_part b + neg_part a * neg_part b) / 100)
      ((pos_part a * neg_part b + neg_part a * pos_part b) / 100)

abbrev quotient : ℤ → ℤ → ℤ
quotient a b =
    if neg_part b == 0
    then sub_ℕ (pos_part a * 100 / pos_part b) (neg_part a * 100 / pos_part b)
    else sub_ℕ (neg_part a * 100 / neg_part b) (pos_part a * 100 / neg_part b)

abbrev pub fixed_point : Float
fixed_point = record {
  F = ℤ;
  of_int = scaled;
  add = ◌+ℤ◌;
  sub = ◌-ℤ◌;
  mul = product;
  div = quotient;
  neg = λ a. pos 0 -ℤ a;
  abs = λ a. pos (pos_part a + neg_part a);
  le = leb_ℤ;
  eq = eqb_ℤ;
  trunc = λ a. sub_ℕ (pos_part a / 100) (neg_part a / 100);
  round = λ a. sub_ℕ ((pos_part a + 50) / 100) ((neg_part a + 50) / 100);
}

le_refl_lem : (a : ℤ) → Le fixed_point a a
le_refl_lem a = ground arith

le_trans_lem : (a b c : ℤ) → Le fixed_point a b → Le fixed_point b c → Le fixed_point a c
le_trans_lem a b c h k = ground arith

le_total_lem : (a b : ℤ) → fixed_point.le a b ≡ false → Le fixed_point b a
le_total_lem a b h = ground arith

of_int_mono_lem : (m n : ℤ) → m ≤ℤ n → Le fixed_point (scaled m) (scaled n)
of_int_mono_lem m n h = ground arith

trunc_mono_lem : (a b : ℤ) → Le fixed_point a b → fixed_point.trunc a ≤ℤ fixed_point.trunc b
trunc_mono_lem a b h = ground arith

trunc_of_int_lem : (n : ℤ) → fixed_point.trunc (scaled n) ≡ n
trunc_of_int_lem (pos n) = ground arith
trunc_of_int_lem (negsuc n) = ground arith

trunc_below_lem :
    (a : ℤ) → Le fixed_point (scaled (pos 0)) a → Le fixed_point (scaled (fixed_point.trunc a)) a
trunc_below_lem a h = ground arith

sub_nonneg_lem : (a b : ℤ) → Le fixed_point a b → Le fixed_point (scaled (pos 0)) (b -ℤ a)
sub_nonneg_lem a b h = ground arith

mul_nonneg_lem :
    (a b : ℤ)
    → Le fixed_point (scaled (pos 0)) a
    → Le fixed_point (scaled (pos 0)) b
    → Le fixed_point (scaled (pos 0)) (product a b)
mul_nonneg_lem (pos a) (pos b) h k = ground arith
mul_nonneg_lem (pos a) (negsuc b) h k = ground arith
mul_nonneg_lem (negsuc a) b h k = ground arith

sub_zero_lem :
    (a b : ℤ) → eqb_ℤ (a -ℤ b) (scaled (pos 0)) ≡ true → Le fixed_point a b × Le fixed_point b a
sub_zero_lem a b h = ground arith

add_before_lem :
    (p s t : ℤ)
    → leb_ℤ (t -ℤ p) (scaled (pos 0)) ≡ false
    → leb_ℤ (fixed_point.abs (t -ℤ p)) s ≡ false
    → Le fixed_point (p +ℤ s) t
add_before_lem p s t h k = ground arith

sub_before_lem :
    (p s t : ℤ)
    → Le fixed_point (t -ℤ p) (scaled (pos 0))
    → leb_ℤ (fixed_point.abs (t -ℤ p)) s ≡ false
    → Le fixed_point t (p +ℤ (pos 0 -ℤ s))
sub_before_lem p s t h k = ground arith

add_up_lem : (p s : ℤ) → Le fixed_point (scaled (pos 0)) s → Le fixed_point p (p +ℤ s)
add_up_lem p s h = ground arith

sub_down_lem : (p s : ℤ) → Le fixed_point (scaled (pos 0)) s → Le fixed_point (p +ℤ (pos 0 -ℤ s)) p
sub_down_lem p s h = ground arith

round_hundredths_lem :
    (n : ℤ)
    → fixed_point.round (product (quotient (scaled n) (scaled (pos 100))) (scaled (pos 100))) ≡ n
round_hundredths_lem (pos n) = ground arith
round_hundredths_lem (negsuc n) = ground arith

pub fixed_point-IsFloat : IsFloat fixed_point
fixed_point-IsFloat = record {
  le_refl = le_refl_lem;
  le_trans = le_trans_lem;
  le_total = le_total_lem;
  of_int_mono = of_int_mono_lem;
  trunc_mono = trunc_mono_lem;
  trunc_of_int = λ n h k. trunc_of_int_lem n;
  trunc_below = trunc_below_lem;
  sub_nonneg = sub_nonneg_lem;
  mul_nonneg = mul_nonneg_lem;
  sub_zero = sub_zero_lem;
  add_before = add_before_lem;
  sub_before = sub_before_lem;
  add_up = add_up_lem;
  sub_down = sub_down_lem;
  round_hundredths = λ n h k. round_hundredths_lem n;
}
