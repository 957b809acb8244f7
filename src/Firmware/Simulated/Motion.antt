-- ===== src/Firmware/Simulated/Motion.antt =====
-- How the focuser of the firmware moves.
use zwo_eaf_proxy.Base.{
  ℕ, zero, suc, ◌+◌, ◌-◌, ◌≤◌, ◌<◌, ◌≡◌, refl, sym, ap, ◌∙◌, arith, true, false, leb, if◌then◌else◌,
  Bool-cases, le_or_lt, inl, inr, ◌⊎◌,
}
use zwo_eaf_proxy.Base.Int.{pos_part, ℤ, pos, negsuc, ◌+ℤ◌, ◌-ℤ◌, leb_ℤ, ltb_ℤ, eqb_ℤ}
use zwo_eaf_proxy.Firmware.Simulated.{magnitude}

-- The choice of `advance`, with the values of its branches
abbrev pub choose : {A : Type 0} → ℤ → ℤ → A → A → A → A → A
choose remaining step here there up down =
    if eqb_ℤ remaining (pos 0)
    then here
    else if leb_ℤ (magnitude remaining) step
    then there
    else if ltb_ℤ (pos 0) remaining
    then up
    else down

choose-up :
    {A : Type 0} (r k : ℕ) (here there up down : A)
    → (r ≡ 0 → here ≡ there)
    → choose (pos r) (pos k) here there up down ≡ (if leb r k then there else up)
choose-up zero k here there up down h = h refl ∙ ground arith
choose-up (suc r) k here there up down h = ground arith

choose-down :
    {A : Type 0} (r k : ℕ) (here there up down : A)
    → (r ≡ 0 → here ≡ there)
    → choose (pos 0 -ℤ pos r) (pos k) here there up down ≡ (if leb r k then there else down)
choose-down zero k here there up down h = h refl ∙ ground arith
choose-down (suc r) k here there up down h = ground arith

-- The position after a step, with the target in thousandths
abbrev pub stepped : ℤ → ℤ → ℤ → ℤ
stepped t p step = choose (t -ℤ p) step p t (p +ℤ step) (p +ℤ (pos 0 -ℤ step))

remaining_up : (p : ℤ) (r : ℕ) → (p +ℤ pos r) -ℤ p ≡ pos r
remaining_up (pos n) r = ground arith
remaining_up (negsuc n) r = ground arith

remaining_down : (p : ℤ) (r : ℕ) → (p -ℤ pos r) -ℤ p ≡ pos 0 -ℤ pos r
remaining_down (pos n) r = ground arith
remaining_down (negsuc n) r = ground arith

pub nowhere : (p : ℤ) → p ≡ p +ℤ pos 0
nowhere p = ground arith

pub nowhere_down : (p : ℤ) → p ≡ p -ℤ pos 0
nowhere_down p = ground arith

stepped-up :
    (p : ℤ) (r k : ℕ)
    → stepped (p +ℤ pos r) p (pos k) ≡ (if leb r k then p +ℤ pos r else p +ℤ pos k)
stepped-up p r k =
    ap (λ d. choose d (pos k) p (p +ℤ pos r) (p +ℤ pos k) (p +ℤ (pos 0 -ℤ pos k)))
      (remaining_up p r)
    ∙ choose-up r k p _ _ _ (λ e. nowhere p ∙ ap (λ n. p +ℤ pos n) (sym e))

stepped-down :
    (p : ℤ) (r k : ℕ)
    → stepped (p -ℤ pos r) p (pos k) ≡ (if leb r k then p -ℤ pos r else p +ℤ (pos 0 -ℤ pos k))
stepped-down p r k =
    ap (λ d. choose d (pos k) p (p -ℤ pos r) (p +ℤ pos k) (p +ℤ (pos 0 -ℤ pos k)))
      (remaining_down p r)
    ∙ choose-down r k p _ _ _ (λ e. nowhere_down p ∙ ap (λ n. p -ℤ pos n) (sym e))

at_target : (t : ℤ) (k : ℕ) → stepped t t (pos k) ≡ t
at_target t k = ap (λ u. stepped u t (pos k)) (nowhere t) ∙ stepped-up t 0 k ∙ ground arith

plus : (p : ℤ) (a b : ℕ) → (p +ℤ pos a) +ℤ pos b ≡ p +ℤ pos (a + b)
plus (pos n) a b = ground arith
plus (negsuc n) a b = ground arith

minus : (p : ℤ) (a b : ℕ) → (p -ℤ pos a) -ℤ pos b ≡ p -ℤ pos (a + b)
minus (pos n) a b = ground arith
minus (negsuc n) a b = ground arith

back : (p : ℤ) (k : ℕ) → p +ℤ (pos 0 -ℤ pos k) ≡ p -ℤ pos k
back p k = ground arith

-- A step covers the way that is left, or goes on.
pub reach-up : (p : ℤ) (r k : ℕ) → r ≤ k → stepped (p +ℤ pos r) p (pos k) ≡ p +ℤ pos r
reach-up p r k h = stepped-up p r k ∙ ground arith

pub go-up : (p : ℤ) (r k : ℕ) → k < r → stepped (p +ℤ pos r) p (pos k) ≡ p +ℤ pos k
go-up p r k h = stepped-up p r k ∙ ground arith

pub reach-down : (p : ℤ) (r k : ℕ) → r ≤ k → stepped (p -ℤ pos r) p (pos k) ≡ p -ℤ pos r
reach-down p r k h = stepped-down p r k ∙ ground arith

pub go-down : (p : ℤ) (r k : ℕ) → k < r → stepped (p -ℤ pos r) p (pos k) ≡ p -ℤ pos k
go-down p r k h = stepped-down p r k ∙ let e : leb r k ≡ false = ground arith in rw e (back p k)

-- Two steps are one: where the first covers the way, where the second does, and where neither does.
on-up :
    (p : ℤ) (r a b : ℕ)
    → a < r
    → stepped (p +ℤ pos r) (p +ℤ pos a) (pos b) ≡ stepped (p +ℤ pos r) p (pos (a + b))
on-up p r a b h =
    let ahead : p +ℤ pos r ≡ (p +ℤ pos a) +ℤ pos (r - a) =
      ap (λ n. p +ℤ pos n) (omega arith) ∙ sym (plus p a (r - a)) in
    ap (λ t. stepped t (p +ℤ pos a) (pos b)) ahead ∙ elim (le_or_lt r (a + b)) [
      | inl done ↦
          reach-up (p +ℤ pos a) (r - a) b (omega arith)
          ∙ sym ahead
          ∙ sym (reach-up p r (a + b) done)
      | inr left ↦
          go-up (p +ℤ pos a) (r - a) b (omega arith) ∙ plus p a b ∙ sym (go-up p r (a + b) left)
    ]

on-down :
    (p : ℤ) (r a b : ℕ)
    → a < r
    → stepped (p -ℤ pos r) (p -ℤ pos a) (pos b) ≡ stepped (p -ℤ pos r) p (pos (a + b))
on-down p r a b h =
    let ahead : p -ℤ pos r ≡ (p -ℤ pos a) -ℤ pos (r - a) =
      ap (λ n. p -ℤ pos n) (omega arith) ∙ sym (minus p a (r - a)) in
    ap (λ t. stepped t (p -ℤ pos a) (pos b)) ahead ∙ elim (le_or_lt r (a + b)) [
      | inl done ↦
          reach-down (p -ℤ pos a) (r - a) b (omega arith)
          ∙ sym ahead
          ∙ sym (reach-down p r (a + b) done)
      | inr left ↦
          go-down (p -ℤ pos a) (r - a) b (omega arith)
          ∙ minus p a b
          ∙ sym (go-down p r (a + b) left)
    ]

twice-up :
    (p : ℤ) (r a b : ℕ)
    → stepped (p +ℤ pos r) (stepped (p +ℤ pos r) p (pos a)) (pos b)
      ≡ stepped (p +ℤ pos r) p (pos (a + b))
twice-up p r a b = elim (le_or_lt r a) [
  | inl there ↦
      ap (λ q. stepped (p +ℤ pos r) q (pos b)) (reach-up p r a there)
      ∙ at_target (p +ℤ pos r) b
      ∙ sym (reach-up p r (a + b) (omega arith))
  | inr short ↦ ap (λ q. stepped (p +ℤ pos r) q (pos b)) (go-up p r a short) ∙ on-up p r a b short
]

twice-down :
    (p : ℤ) (r a b : ℕ)
    → stepped (p -ℤ pos r) (stepped (p -ℤ pos r) p (pos a)) (pos b)
      ≡ stepped (p -ℤ pos r) p (pos (a + b))
twice-down p r a b = elim (le_or_lt r a) [
  | inl there ↦
      ap (λ q. stepped (p -ℤ pos r) q (pos b)) (reach-down p r a there)
      ∙ at_target (p -ℤ pos r) b
      ∙ sym (reach-down p r (a + b) (omega arith))
  | inr short ↦
      ap (λ q. stepped (p -ℤ pos r) q (pos b)) (go-down p r a short) ∙ on-down p r a b short
]

-- Every target lies upwards or downwards.
pub ways : (t p : ℤ) → ((r : ℕ) × (t ≡ p +ℤ pos r)) ⊎ ((r : ℕ) × (t ≡ p -ℤ pos r))
ways t p = elim (Bool-cases (leb_ℤ p t)) [
  | inl up ↦ inl (pos_part (t -ℤ p), upwards t p up)
  | inr down ↦ inr (pos_part (p -ℤ t), downwards t p down)
]
  where
    upwards : (t p : ℤ) → leb_ℤ p t ≡ true → t ≡ p +ℤ pos (pos_part (t -ℤ p))
    upwards (pos m) (pos n) h = ground arith
    upwards (pos m) (negsuc n) h = ground arith
    upwards (negsuc m) (pos n) h = ground arith
    upwards (negsuc m) (negsuc n) h = ground arith

    downwards : (t p : ℤ) → leb_ℤ p t ≡ false → t ≡ p -ℤ pos (pos_part (p -ℤ t))
    downwards (pos m) (pos n) h = ground arith
    downwards (pos m) (negsuc n) h = ground arith
    downwards (negsuc m) (pos n) h = ground arith
    downwards (negsuc m) (negsuc n) h = ground arith

pub stepped-add :
    (t p : ℤ) (a b : ℕ) → stepped t (stepped t p (pos a)) (pos b) ≡ stepped t p (pos (a + b))
stepped-add t p a b = elim (ways t p) [
  | inl (r, e) ↦ rw e (twice-up p r a b)
  | inr (r, e) ↦ rw e (twice-down p r a b)
]
