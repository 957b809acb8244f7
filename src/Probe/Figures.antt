-- ===== src/Probe/Figures.antt =====
-- The parts of `main` that only compute: the port, the targets of a scan, the default aperture and the
-- verdict on the calibrations.
pub mod Sweep
use zwo_eaf_proxy.Base.{
  ℕ, zero, suc, ◌+◌, ◌*◌, ◌/◌, Bool, true, false, not, ◌&&◌, ◌||◌, Option, none, some, List, [],
  ◌∷◌, ltb, leb, ◌==◌, if◌then◌else◌, length,
}
use zwo_eaf_proxy.Base.Int.{ℤ, pos, negsuc, pos_part, ◌+ℤ◌, ◌-ℤ◌, ltb_ℤ, leb_ℤ, eqb_ℤ, min_ℤ, max_ℤ}
use zwo_eaf_proxy.Base.Result.{Result, ok, err}
use zwo_eaf_proxy.Base.Bytes.{bytes_eq}
use zwo_eaf_proxy.Float.{Float}
use zwo_eaf_proxy.Text.{Text, int_of, split, strip}
use zwo_eaf_proxy.Pinefeat
use zwo_eaf_proxy.Pinefeat.{get_range, get_aperture_range, calibrate, check, to_int, after_last}
use zwo_eaf_proxy.Probe.{
  Os, ProbeError, no_reply, no_cycles, bad_option, no_port, out_of_fuel, Action, pure, raise, lift,
  after, ◌>>=◌, ◌>>◌,
}
use zwo_eaf_proxy.Probe.Port.{timeout, ask}
use zwo_eaf_proxy.Probe.Bench.{
  Options, Outcome, usable, ask_moving, ask_position, command_move, pause, settle, bench, status,
}

-- `find_port`, on what `glob` finds; sorting does not matter, since one candidate is taken only.
unfoldable pub find_port : Option Text → List Text → Result ProbeError Text
find_port (some (c ∷ cs)) candidates = ok (c ∷ cs)
find_port explicit (p ∷ []) = ok p
find_port explicit candidates = err no_port

-- `range(first, stop, step)`: so many entries, from the first on.
abbrev pub entries : ℕ → ℤ → ℤ → List ℤ
entries zero first step = []
entries (suc n) first step = first ∷ entries n (first +ℤ step) step

unfoldable pub range : ℤ → ℤ → ℤ → Result ProbeError (List ℤ)
range first stop (pos zero) = err bad_option
range first stop (pos (suc k)) =
    ok (entries ((pos_part (stop -ℤ first) + k) / suc k) first (pos (suc k)))
range first stop (negsuc k) = ok (entries ((pos_part (first -ℤ stop) + k) / suc k) first (negsuc k))

-- The targets of a scan: `range(first, last + (1 if step > 0 else -1), step)`
unfoldable pub scan_targets : ℤ → ℤ → ℤ → Result ProbeError (List ℤ)
scan_targets first last step =
    range first (last +ℤ (if ltb_ℤ (pos 0) step then pos 1 else negsuc 0)) step

-- `first, last, step = (int(v) for v in args.scan.split(":"))`
abbrev pub three_ints : List Text → Option (ℤ × ℤ × ℤ)
three_ints (a ∷ b ∷ c ∷ []) = elim (int_of a) [
  | none ↦ none
  | some x ↦ elim (int_of b) [
    | none ↦ none
    | some y ↦ elim (int_of c) [ none ↦ none | some z ↦ some (x, y, z) ]
  ]
]
three_ints texts = none

-- What the tool takes of Python's mathematics and of its texts of floats: `log2`, `2 ** x`, `float`,
-- the format `.5f`, and the float literals 5.6, 1 / 3 and 0.01.
pub record Maths (f : Float) : Type 0 where
  pub log2 : f.F → f.F
  pub exp2 : f.F → f.F
  pub float_of : Text → Option f.F
  pub format_5 : f.F → Text
  pub reference : f.F
  pub floor : f.F
  pub hundredth : f.F

-- "auto"
abbrev pub auto : Text
auto = b'a' ∷ b'u' ∷ b't' ∷ b'o' ∷ []

-- `default_aperture`, with Python's `min` and `max`, and the cap 2.0
unfoldable pub default_aperture : (f : Float) → Maths f → f.F → f.F
default_aperture f m f_min =
    let wanted = m.log2 (f.div m.reference f_min) in
    let raised = if f.le wanted m.floor then m.floor else wanted in
    let cap = f.of_int (pos 2) in
    let stops = if f.le cap raised then cap else raised in
    f.mul f_min (m.exp2 (f.div stops (f.of_int (pos 2))))

-- `max`, `min` and `sum` of a list with a first entry, and `all`
abbrev pub max_of : ℤ → List ℤ → ℤ
max_of m [] = m
max_of m (x ∷ xs) = max_of (max_ℤ m x) xs

abbrev pub min_of : ℤ → List ℤ → ℤ
min_of m [] = m
min_of m (x ∷ xs) = min_of (min_ℤ m x) xs

abbrev pub sum_of : List ℤ → ℤ
sum_of [] = pos 0
sum_of (x ∷ xs) = x +ℤ sum_of xs

abbrev pub all_nonzero : List ℤ → Bool
all_nonzero [] = true
all_nonzero (x ∷ xs) = not (eqb_ℤ x (pos 0)) && all_nonzero xs

-- The verdict of `--vet`: 0 if every calibration gave a travel, and these differ by less than a
-- hundredth of their mean. An empty list makes `max` raise.
unfoldable pub vet_status : (f : Float) → Maths f → List ℤ → Result ProbeError ℕ
vet_status f m [] = err no_cycles
vet_status f m (x ∷ xs) =
    let spread = f.of_int (max_of x xs -ℤ min_of x xs) in
    let mean = f.div (f.of_int (sum_of (x ∷ xs))) (f.of_int (pos (length (x ∷ xs)))) in
    if not (all_nonzero (x ∷ xs))
    then ok 1
    else ok (if not (f.le m.hundredth (f.div spread mean)) then 0 else 1)
