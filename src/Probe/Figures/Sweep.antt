-- ===== src/Probe/Figures/Sweep.antt =====
-- The targets of a scan.
use zwo_eaf_proxy.Base.{
  ℕ, zero, suc, ◌+◌, ◌-◌, ◌*◌, ◌/◌, ◌≤◌, ◌≡◌, refl, List, [], ◌∷◌, arith, ◌⊎◌, inl, inr,
}
use zwo_eaf_proxy.Base.Int.{ℤ, pos, negsuc, pos_part, ◌≤ℤ◌, ◌+ℤ◌, ◌-ℤ◌}
use zwo_eaf_proxy.Base.Result.{ok, err}
use zwo_eaf_proxy.Probe.{bad_option}
use zwo_eaf_proxy.Probe.Figures.{entries, range, scan_targets}

-- The way to `last` is at an end in front of `first`, in the direction of the step; or it is not.
abbrev pub IsPast : ℤ → ℤ → ℤ → Type 0
IsPast (pos k) first last = last +ℤ pos 1 ≤ℤ first
IsPast (negsuc k) first last = first +ℤ pos 1 ≤ℤ last

abbrev pub IsWithin : ℤ → ℤ → ℤ → Type 0
IsWithin (pos k) first last = first ≤ℤ last
IsWithin (negsuc k) first last = last ≤ℤ first

-- A list of targets runs from `first` up or down to `last`, by `step`, and stops less than a step from it.
abbrev pub Covers : ℤ → ℤ → ℤ → List ℤ → Type 0
Covers first last step [] = IsPast step first last
Covers first last step (t ∷ ts) =
    (t ≡ first) × IsWithin step t last × Covers (first +ℤ step) last step ts

-- One entry fewer, and what is left of the way.
suc-mul : (n k : ℕ) → suc n * suc k ≡ n * suc k + suc k
suc-mul n k = grind arith

abbrev way : ℤ → ℤ → ℕ
way first last = pos_part ((last +ℤ pos 1) -ℤ first)

way-step : (first last : ℤ) (k : ℕ) → way (first +ℤ pos (suc k)) last ≡ way first last - suc k
way-step first last k = ground arith

entries-Covers :
    (n k : ℕ) (first last : ℤ)
    → way first last ≤ n * suc k
    → n * suc k ≤ way first last + k
    → Covers first last (pos (suc k)) (entries n first (pos (suc k)))
entries-Covers zero k first last h g = let e : way first last ≡ 0 = grind arith in ground arith
entries-Covers (suc n) k first last h g =
    let e = suc-mul n k in
    let w = way-step first last k in
    let some_way : 1 ≤ way first last = omega arith in
    (refl, ground arith, entries-Covers n k (first +ℤ pos (suc k)) last (omega arith) (omega arith))

ceiling : (d k : ℕ) → (d ≤ (d + k) / suc k * suc k) × ((d + k) / suc k * suc k ≤ d + k)
ceiling d k = grind arith

-- The same downwards
way_down : ℤ → ℤ → ℕ
way_down first last = pos_part (first -ℤ (last +ℤ negsuc 0))

way_down-step :
    (first last : ℤ) (k : ℕ) → way_down (first +ℤ negsuc k) last ≡ way_down first last - suc k
unfolding way_down
way_down-step first last k = ground arith

way_down-none : (first last : ℤ) → way_down first last ≡ 0 → first +ℤ pos 1 ≤ℤ last
unfolding way_down
way_down-none first last h = ground arith

way_down-some : (first last : ℤ) → 1 ≤ way_down first last → last ≤ℤ first
unfolding way_down
way_down-some first last h = ground arith

entries_down-Covers :
    (n k : ℕ) (first last : ℤ)
    → way_down first last ≤ n * suc k
    → n * suc k ≤ way_down first last + k
    → Covers first last (negsuc k) (entries n first (negsuc k))
entries_down-Covers zero k first last h g = way_down-none first last (grind arith)
entries_down-Covers (suc n) k first last h g =
    let e = suc-mul n k in
    let w = way_down-step first last k in
    let some_way : 1 ≤ way_down first last = omega arith in
    (
      refl,
      way_down-some first last some_way,
      entries_down-Covers n k (first +ℤ negsuc k) last (omega arith) (omega arith),
    )

-- A scan whose step is zero raises. Any other begins at its first target, goes on by the step, up or down,
-- does not pass its last target, and leaves less than a step to it.
pub scan_targets-Covers :
    (first last step : ℤ)
    → ((step ≡ pos 0) × (scan_targets first last step ≡ err bad_option))
      ⊎ ((targets : List ℤ) × (scan_targets first last step ≡ ok targets)
          × Covers first last step targets)
unfolding scan_targets range
scan_targets-Covers first last (pos zero) = inl (refl, refl)
scan_targets-Covers first last (pos (suc k)) = inr (
  entries ((way first last + k) / suc k) first (pos (suc k)),
  ground arith,
  let (h, g) = ceiling (way first last) k in entries-Covers _ k first last h g,
)
scan_targets-Covers first last (negsuc k) = inr (
  entries ((way_down first last + k) / suc k) first (negsuc k),
  unfold way_down in ground arith,
  let (h, g) = ceiling (way_down first last) k in entries_down-Covers _ k first last h g,
)
