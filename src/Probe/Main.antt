-- ===== src/Probe/Main.antt =====
-- `main`: the port is found and opened, and the options select what is done, in the order of the
-- source. Loops with no deadline, which wait until the lens is at rest, have `rounds` as their fuel.
pub mod Send
pub mod Quiet
use zwo_eaf_proxy.Base.{
  ℕ, zero, suc, ◌+◌, ◌*◌, ◌/◌, Bool, true, false, not, ◌&&◌, ◌||◌, Option, none, some, List, [],
  ◌∷◌, ltb, leb, ◌==◌, if◌then◌else◌, length,
}
use zwo_eaf_proxy.Base.Int.{ℤ, pos, negsuc, pos_part, ◌+ℤ◌, ◌-ℤ◌, ltb_ℤ, leb_ℤ, eqb_ℤ, min_ℤ, max_ℤ}
use zwo_eaf_proxy.Base.Result.{Result, ok, err}
use zwo_eaf_proxy.Base.Bytes.{bytes_eq}
use zwo_eaf_proxy.Float.{Float}
use zwo_eaf_proxy.Text.{Text, int_of, split, strip}
use zwo_eaf_proxy.Pinefeat
use zwo_eaf_proxy.Pinefeat.{get_range, get_aperture_range, calibrate, check, to_int, after_last}
use zwo_eaf_proxy.Probe.{
  Os, ProbeError, no_reply, no_cycles, bad_option, no_port, out_of_fuel, Action, pure, raise, lift,
  after, ◌>>=◌, ◌>>◌,
}
use zwo_eaf_proxy.Probe.Port.{timeout, ask}
use zwo_eaf_proxy.Probe.Bench.{
  Options, Outcome, usable, ask_moving, ask_position, command_move, pause, settle, bench, status,
}
use zwo_eaf_proxy.Probe.Figures.{
  find_port, scan_targets, three_ints, Maths, auto, default_aperture, vet_status,
}

-- The options of the command line; `dwell` and `timeout` have defaults.
pub record Arguments (f : Float) : Type 0 where
  pub port : Option Text
  pub bench_options : Options f
  pub send : Option Text
  pub calibrate : Bool
  pub vet : Option ℤ
  pub focus : Option ℤ
  pub aperture : Option Text
  pub scan : Option Text
  pub dwell : f.F
  pub timeout : f.F

-- An option with a text counts if the text is not empty, one with a number if it is not zero.
abbrev pub given : Option Text → Option Text
given (some (c ∷ cs)) = some (c ∷ cs)
given other = none

abbrev pub given_number : Option ℤ → Option ℤ
given_number (some n) = if eqb_ℤ n (pos 0) then none else some n
given_number none = none

module _ (f : Float) (o : Os f) (m : Maths f) (rounds : ℕ) where
  -- `while pinefeat.parse_is_moving(...): time.sleep(...)`
  abbrev pub wait_on : Action o.State (Unit {0}) → f.F → Bool → Action o.State (Unit {0})
  wait_on again seconds false = pure tt
  wait_on again seconds true = pause f o seconds >> again

  unfoldable pub wait_still : ℕ → f.F → Action o.State (Unit {0})
  wait_still zero seconds = raise out_of_fuel
  wait_still (suc k) seconds = ask_moving f o >>= wait_on (wait_still k seconds) seconds

  abbrev pub hundredths : ℕ → f.F
  hundredths n = f.div (f.of_int (pos n)) (f.of_int (pos 100))

  -- `int(raw.rsplit("-", 1)[-1]) if usable(raw) else 0`
  abbrev pub travel_of : Text → Action o.State ℤ
  travel_of raw = if usable raw then lift (to_int (after_last b'-' raw)) else pure (pos 0)

  -- The calibrations of `--vet`; the answer to `c` is not looked at.
  unfoldable pub vet_runs : ℕ → Action o.State (List ℤ)
  vet_runs zero = pure []
  vet_runs (suc n) = do
    ask f o Pinefeat.calibrate (f.of_int (pos 60))
    wait_still rounds (hundredths 10)
    reply ← ask f o get_range (timeout f)
    raw ← lift (check reply)
    travel ← travel_of raw
    rest ← vet_runs n
    pure (travel ∷ rest)

  unfoldable pub run_vet : ℤ → Action o.State ℕ
  run_vet n = vet_runs (pos_part n) >>= λ seen. λ s. (vet_status f m seen, s)

  -- `--calibrate`
  unfoldable pub run_calibrate : Action o.State (Unit {0})
  run_calibrate = do
    ask f o Pinefeat.calibrate (f.of_int (pos 60))
    wait_still rounds (hundredths 10)
    reply ← ask f o get_range (timeout f)
    lift (check reply)
    pure tt

  -- `float(text)`
  abbrev pub to_float : Option f.F → Action o.State f.F
  to_float none = raise bad_option
  to_float (some x) = pure x

  abbrev pub first_part : List Text → Text
  first_part [] = []
  first_part (p ∷ ps) = p

  -- `default_aperture(low) if args.aperture == "auto" else float(args.aperture)`
  abbrev pub wanted_aperture : Text → f.F → Action o.State f.F
  wanted_aperture text low =
      if bytes_eq text auto then pure (default_aperture f m low) else to_float (m.float_of text)

  -- `--aperture`; the answer is printed only
  unfoldable pub run_aperture : Text → Action o.State (Unit {0})
  run_aperture text = do
    reply ← ask f o get_aperture_range (timeout f)
    range_text ← lift (check reply)
    low ← to_float (m.float_of (first_part (split b'-' range_text)))
    wanted ← wanted_aperture text low
    ask f o (Pinefeat.set_aperture (m.format_5 wanted)) (timeout f)
    pure tt

  -- `--focus`
  unfoldable pub run_focus : ℤ → Action o.State (Unit {0})
  run_focus target = command_move f o target >> settle f o >> pure tt

  -- One step of the sweep of `--scan`
  abbrev pub scan_step : f.F → ℤ → Action o.State (Unit {0})
  scan_step dwell target = do
    command_move f o target
    wait_still rounds (hundredths 5)
    ask_position f o
    pause f o dwell

  unfoldable pub sweep : f.F → List ℤ → Action o.State (Unit {0})
  sweep dwell [] = pure tt
  sweep dwell (t ∷ ts) = scan_step dwell t >> sweep dwell ts

  abbrev pub sweep_all : f.F → Result ProbeError (List ℤ) → Action o.State (Unit {0})
  sweep_all dwell (err e) = raise e
  sweep_all dwell (ok targets) = sweep dwell targets

  abbrev pub scan_ints : f.F → Option (ℤ × ℤ × ℤ) → Action o.State (Unit {0})
  scan_ints dwell none = raise bad_option
  scan_ints dwell (some (first, last, step)) = sweep_all dwell (scan_targets first last step)

  unfoldable pub run_scan : f.F → Text → Action o.State (Unit {0})
  run_scan dwell text = scan_ints dwell (three_ints (split b':' text))

  -- A command of `--send`: a `TimeoutError` is printed only.
  abbrev pub without_timeout :
      Result ProbeError Text × o.State → Result ProbeError (Unit {0}) × o.State
  without_timeout (ok reply, s) = (ok tt, s)
  without_timeout (err (no_reply b), s) = (ok tt, s)
  without_timeout (err e, s) = (err e, s)

  unfoldable pub send_one : f.F → Text → Action o.State (Unit {0})
  send_one wait command s = without_timeout (ask f o (strip command) wait s)

  unfoldable pub send_all : f.F → List Text → Action o.State (Unit {0})
  send_all wait [] = pure tt
  send_all wait (c ∷ cs) = send_one wait c >> send_all wait cs

  -- The parts of `main` that are skipped where their option is not given
  abbrev pub calibrate_if : Bool → Action o.State (Unit {0})
  calibrate_if true = run_calibrate
  calibrate_if false = pure tt

  abbrev pub aperture_if : Option Text → Action o.State (Unit {0})
  aperture_if (some text) = run_aperture text
  aperture_if none = pure tt

  abbrev pub focus_if : Option ℤ → Action o.State (Unit {0})
  focus_if (some target) = run_focus target
  focus_if none = pure tt

  abbrev pub is_given {ℓ} : {A : Type ℓ} → Option A → Bool
  is_given none = false
  is_given (some a) = true

  -- The bench test, with the exit status that its exceptions give
  abbrev pub run_bench : Options f → Action o.State ℕ
  run_bench options s = let (r, s') = bench f o options s in (status r, s')

  abbrev pub send_or_bench : Arguments f → Option Text → Action o.State ℕ
  send_or_bench args (some text) = send_all args.timeout (split b',' text) >> pure 0
  send_or_bench args none = run_bench args.bench_options

  abbrev pub scan_or_rest : Arguments f → Option Text → Action o.State ℕ
  scan_or_rest args (some text) = run_scan args.dwell text >> pure 0
  scan_or_rest args none = send_or_bench args (given args.send)

  abbrev pub single_or_rest : Arguments f → Action o.State ℕ
  single_or_rest args =
      calibrate_if args.calibrate
      >> aperture_if (given args.aperture)
      >> focus_if args.focus
      >> (if args.calibrate || (is_given (given args.aperture) || is_given args.focus)
          then pure 0
          else scan_or_rest args (given args.scan))

  abbrev pub vet_or_rest : Arguments f → Option ℤ → Action o.State ℕ
  vet_or_rest args (some n) = run_vet n
  vet_or_rest args none = single_or_rest args

  abbrev pub on_port : Arguments f → Result ProbeError Text → Action o.State ℕ
  on_port args (err e) = raise e
  on_port args (ok path) = vet_or_rest args (given_number args.vet)

  -- `main`: the exit status, or the exception that is passed on
  unfoldable pub main : List Text → Arguments f → Action o.State ℕ
  main candidates args = on_port args (find_port args.port candidates)
