-- ===== src/Firmware/Simulated/Advance.antt =====
-- What the focuser of the firmware does with time, and the contract that it keeps.
use zwo_eaf_proxy.Base.{
  ℕ, ◌+◌, ◌*◌, ◌<◌, ◌≡◌, refl, sym, ap, ◌∙◌, arith, Bool, true, false, if◌then◌else◌, inl, inr,
  le_or_lt, Bool-cases,
}
use zwo_eaf_proxy.Base.Int.{ℤ, pos, negsuc, ◌≤ℤ◌, ◌+ℤ◌, ◌-ℤ◌, eqb_ℤ, leb_ℤ, ltb_ℤ}
use zwo_eaf_proxy.Firmware.Simulated.{SimulatedFocuser, advance, times, magnitude}
use zwo_eaf_proxy.Firmware.Simulated.Motion.{
  stepped, choose, stepped-add, ways, nowhere, nowhere_down, reach-up, go-up, reach-down, go-down,
}

-- A focuser that is elsewhere
abbrev pub place : SimulatedFocuser → ℤ → SimulatedFocuser
place s z = record s { position = z }

place-if :
    (s : SimulatedFocuser) (b : Bool) (x y : ℤ)
    → (if b then place s x else place s y) ≡ place s (if b then x else y)
place-if s true x y = refl
place-if s false x y = refl

pub times_pos : (k r : ℕ) → times k (pos r) ≡ pos (k * r)
times_pos k r = ground arith

-- The three branches of `advance` differ in the position.
choose-place :
    (s : SimulatedFocuser) (remaining step a b c d : ℤ)
    → (if eqb_ℤ remaining (pos 0)
        then place s a
        else if leb_ℤ (magnitude remaining) step
        then place s b
        else place s (if ltb_ℤ (pos 0) remaining then c else d))
      ≡ place s (choose remaining step a b c d)
choose-place s remaining step a b c d =
    let near = leb_ℤ (magnitude remaining) step in
    let still = eqb_ℤ remaining (pos 0) in
    ap (λ x. if still then place s a else x)
      (place-if s near b (if ltb_ℤ (pos 0) remaining then c else d))
    ∙ place-if s still a (if near then b else if ltb_ℤ (pos 0) remaining then c else d)

-- An advance is a step towards the target.
step_to : SimulatedFocuser → ℤ → SimulatedFocuser
step_to s step = place s (stepped (times 1000 s.target) s.position step)

advance-step_to : (ms : ℕ) (s : SimulatedFocuser) → advance ms s ≡ step_to s (times ms s.rate)
unfolding advance step_to
advance-step_to ms s =
    let t = times 1000 s.target in
    let step = times ms s.rate in
    choose-place s (t -ℤ s.position) step s.position t (s.position +ℤ step)
      (s.position +ℤ (pos 0 -ℤ step))

pub advance-stepped :
    (r ms : ℕ) (s : SimulatedFocuser)
    → s.rate ≡ pos r
    → advance ms s ≡ record s { position = stepped (times 1000 s.target) s.position (pos (ms * r)) }
advance-stepped r ms s h =
    advance-step_to ms s
    ∙ ap (step_to s) (ap (times ms) h ∙ times_pos ms r)
    ∙ unfold step_to in refl

abbrev pub InBounds : ℤ → ℤ → ℤ → Type 0
InBounds lo hi z = (lo ≤ℤ z) × (z ≤ℤ hi)

within-up :
    (lo hi p : ℤ) (r k : ℕ) → k < r → lo ≤ℤ p → (p +ℤ pos r) ≤ℤ hi → InBounds lo hi (p +ℤ pos k)
within-up lo hi (pos n) r k h a b = ground arith
within-up lo hi (negsuc n) r k h a b = ground arith

within-down :
    (lo hi p : ℤ) (r k : ℕ) → k < r → lo ≤ℤ (p -ℤ pos r) → p ≤ℤ hi → InBounds lo hi (p -ℤ pos k)
within-down lo hi (pos n) r k h a b = ground arith
within-down lo hi (negsuc n) r k h a b = ground arith

-- A step stays within the bounds of its ends.
pub stepped-InBounds :
    (lo hi t p : ℤ) (k : ℕ)
    → InBounds lo hi t
    → InBounds lo hi p
    → InBounds lo hi (stepped t p (pos k))
stepped-InBounds lo hi t p k h g = elim (ways t p) [
  | inl (r, e) ↦
      let h' = rw e at h in
      rw e (elim (le_or_lt r k) [
        | inl there ↦ rw (reach-up p r k there) h'
        | inr short ↦ rw (go-up p r k short) (within-up lo hi p r k short g.0 h'.1)
      ])
  | inr (r, e) ↦
      let h' = rw e at h in
      rw e (elim (le_or_lt r k) [
        | inl there ↦ rw (reach-down p r k there) h'
        | inr short ↦ rw (go-down p r k short) (within-down lo hi p r k short h'.0 g.1)
      ])
]

sum_times : (a b r : ℕ) → a * r + b * r ≡ (a + b) * r
sum_times a b r = grind arith

-- Two advances are one of the whole time, at a rate that is not negative: where the focuser is does not
-- depend on how the time is cut.
pub advance-advance :
    (r a b : ℕ) (s : SimulatedFocuser)
    → s.rate ≡ pos r
    → advance b (advance a s) ≡ advance (a + b) s
advance-advance r a b s h =
    let t = times 1000 s.target in
    ap (advance b) (advance-stepped r a s h)
    ∙ advance-stepped r b (place s (stepped t s.position (pos (a * r)))) h
    ∙ ap (place s) (
        stepped-add t s.position (a * r) (b * r)
        ∙ ap (λ n. stepped t s.position (pos n)) (sum_times a b r))
    ∙ sym (advance-stepped r (a + b) s h)

same_place : (t p : ℤ) → eqb_ℤ (t -ℤ p) (pos 0) ≡ true → p ≡ t
same_place (pos m) (pos n) h = ground arith
same_place (pos m) (negsuc n) h = ground arith
same_place (negsuc m) (pos n) h = ground arith
same_place (negsuc m) (negsuc n) h = ground arith

-- A step that is not shorter than the way ends at the target.
pub stepped_there : (t p step : ℤ) → leb_ℤ (magnitude (t -ℤ p)) step ≡ true → stepped t p step ≡ t
stepped_there t p step h = elim (Bool-cases (eqb_ℤ (t -ℤ p) (pos 0))) [
  | inl e ↦ rw e (same_place t p e)
  | inr e ↦ rw (e, h) refl
]

stepped_none : (t p : ℤ) → stepped t p (pos 0) ≡ p
stepped_none t p = elim (ways t p) [
  | inl (r, e) ↦ elim (le_or_lt r 0) [
    | inl there ↦
        let z : r ≡ 0 = omega arith in
        rw e (reach-up p r 0 there ∙ ap (λ n. p +ℤ pos n) z ∙ sym (nowhere p))
    | inr short ↦ rw e (go-up p r 0 short ∙ sym (nowhere p))
  ]
  | inr (r, e) ↦ elim (le_or_lt r 0) [
    | inl there ↦
        let z : r ≡ 0 = omega arith in
        rw e (reach-down p r 0 there ∙ ap (λ n. p -ℤ pos n) z ∙ sym (nowhere_down p))
    | inr short ↦ rw e (go-down p r 0 short ∙ sym (nowhere_down p))
  ]
]

-- No time moves nothing.
pub advance_none : (r : ℕ) (s : SimulatedFocuser) → s.rate ≡ pos r → advance 0 s ≡ s
advance_none r s h =
    advance-stepped r 0 s h
    ∙ ap (λ n. place s (stepped (times 1000 s.target) s.position (pos n))) (omega arith)
    ∙ ap (place s) (stepped_none (times 1000 s.target) s.position)

-- An advance leaves the rate.
pub rate-advance : (r ms : ℕ) (s : SimulatedFocuser) → s.rate ≡ pos r → (advance ms s).rate ≡ pos r
rate-advance r ms s h = ap (λ u. u.rate) (advance-stepped r ms s h) ∙ h
