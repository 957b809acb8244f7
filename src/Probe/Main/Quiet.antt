-- ===== src/Probe/Main/Quiet.antt =====
-- What the tool writes when no option that acts is given.
use zwo_eaf_proxy.Base.{arith, ℕ, ◌≡◌, ◌≤◌, refl, false, none, List, ◌++◌, take}
use zwo_eaf_proxy.Base.Result.{Result, ok, err}
use zwo_eaf_proxy.Base.Bytes.{Bytes}
use zwo_eaf_proxy.Float.{Float}
use zwo_eaf_proxy.Text.{Text}
use zwo_eaf_proxy.Probe.{Os, ProbeError}
use zwo_eaf_proxy.Probe.Bench.{Outcome, status}
use zwo_eaf_proxy.Probe.Bench.Quiet.{traced, questions}
use zwo_eaf_proxy.Probe.Bench.Turns.{asked, in_turn, bench-Writes}
use zwo_eaf_proxy.Probe.Figures.{Maths, find_port}
use zwo_eaf_proxy.Probe.Main.{Arguments, given, given_number, main, run_bench}

-- Neither `--test` is given, nor another option that acts; a text is not given either where it is empty, a
-- number of calibrations where it is zero.
pub record IsPlain (f : Float) (args : Arguments f) : Type 0 where
  pub vet : given_number args.vet ≡ none
  pub calibrate : args.calibrate ≡ false
  pub aperture : given args.aperture ≡ none
  pub focus : args.focus ≡ none
  pub scan : given args.scan ≡ none
  pub send : given args.send ≡ none
  pub test : args.bench_options.test ≡ false

module _ (f : Float) (o : Os f) (m : Maths f) (rounds : ℕ) where
  -- It is the bench then.
  main-bench :
      (candidates : List Text) (path : Text) (args : Arguments f) (s : o.State × List Bytes)
      → find_port args.port candidates ≡ ok path
      → IsPlain f args
      → main f (traced f o) m rounds candidates args s
        ≡ run_bench f (traced f o) m rounds args.bench_options s
  unfolding main
  main-bench candidates path args s e p =
      rw (e, p.vet, p.calibrate, p.aperture, p.focus, p.scan, p.send) refl

  returned : (r : Result ProbeError Outcome) → status r ≡ ok 0 → (a : Outcome) × (r ≡ ok a)
  unfolding status
  returned (ok a) h = (a, refl)
  returned (err e) h = ground arith

  -- The tool, on a port that is found, with none of `--vet`, `--calibrate`, `--aperture`, `--focus`, `--scan`,
  -- `--send` and `--test`, writes to it the questions for version, range, position and moving, in this order:
  -- all four if it exits with status 0, and otherwise the first few. Nothing else is written, so that nothing
  -- moves, and the system is left as asking the four in turn leaves it, up to the first whose port or reply
  -- fails.
  pub main-Writes :
      (candidates : List Text) (path : Text) (args : Arguments f) (s : o.State × List Bytes)
      → find_port args.port candidates ≡ ok path
      → IsPlain f args
      → let r = main f (traced f o) m rounds candidates args s in
        (n : ℕ) × (r.1.1 ≡ s.1 ++ take n questions)
        × (n ≤ 4)
        × (r.0 ≡ ok 0 → n ≡ 4)
        × (r.1 ≡ (in_turn f o asked s).1)
  main-Writes candidates path args s e p =
      let ((n, wrote, few, all), left) = bench-Writes f o args.bench_options s p.test in
      rw (main-bench candidates path args s e p)
        (n, wrote, few, λ h. let (a, q) = returned _ h in all a q, left)
