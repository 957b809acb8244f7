-- ===== src/Probe/Tests.antt =====
-- The bench tool on the fake controller, and its theorems at concrete inputs. The clock goes on by ten
-- milliseconds with each reading.
use zwo_eaf_proxy.Base.{
  ℕ, ◌+◌, ◌-◌, ◌≡◌, ◌≢◌, refl, true, false, ◌≤◌, ◌++◌, some, Option, none, List, [], ◌∷◌, arith,
  take, ◌⊎◌,
}
use zwo_eaf_proxy.Base.Int.{ℤ, pos, negsuc, pos_part}
use zwo_eaf_proxy.Base.Result.{ok, err}
use zwo_eaf_proxy.Base.Bytes.{Bytes}
use zwo_eaf_proxy.Float.FixedPoint.{fixed_point, fixed_point-IsFloat}
use zwo_eaf_proxy.Text.{Text}
use zwo_eaf_proxy.Text.{int_of, signed_value, digits_value, lstrip, rstrip, decimal, decimal_from}
use zwo_eaf_proxy.Simulated.Advance.{IsMonotonic}
use zwo_eaf_proxy.Pinefeat
use zwo_eaf_proxy.Pinefeat.{frame, unframe, check, parse_position, parse_is_moving}
use zwo_eaf_proxy.FakeCef.{Controller, advance, reply, answer, argument}
use zwo_eaf_proxy.FakeCef.Serve.{serve_chunk}
use zwo_eaf_proxy.Probe.{Os, out_of_fuel, bad_option, finished_early}
use zwo_eaf_proxy.Probe.Port.{timeout, ask, read_line, read_loop}
use zwo_eaf_proxy.Probe.Bench.{
  Options, bench, identify, retarget_cycle, pseudo_halt, settle, settle_loop,
}
use zwo_eaf_proxy.Probe.Bench.Quiet.{traced, questions}
use zwo_eaf_proxy.Probe.Bench.Turns.{asked, in_turn}
use zwo_eaf_proxy.Probe.Main.Quiet.{IsPlain, main-Writes}
use zwo_eaf_proxy.Probe.Bench.Ends.{bench_ends}
use zwo_eaf_proxy.Probe.Fake.{Pty, pty, at_rest}
use zwo_eaf_proxy.Probe.Fake.Ask.{IsPrompt}
use zwo_eaf_proxy.Probe.Fake.Motion.{IsFine}
use zwo_eaf_proxy.Probe.Fake.Cycle.{IsCount, pty-IsPassing}
use zwo_eaf_proxy.Probe.Fake.Identify.{identify-range}
use zwo_eaf_proxy.Probe.Figures.{Maths, scan_targets, find_port}
use zwo_eaf_proxy.Probe.Main.{Arguments, main, send_one, send_all}
use zwo_eaf_proxy.Probe.Figures.Sweep.{Covers, scan_targets-Covers}
use zwo_eaf_proxy.Probe.Main.Send.{send_all-log}

abbrev clock : ℕ → ℤ
clock n = pos (500 + n)

abbrev no_float : Text → Option ℤ
no_float t = none

abbrev remaining : ℤ → ℕ → ℕ
remaining d n = pos_part d - (500 + n)

abbrev system : Os fixed_point
system = pty fixed_point clock no_float (pos 280) (pos 2260) remaining

clock-IsMonotonic : IsMonotonic fixed_point clock
clock-IsMonotonic n = ground arith

clock-IsPrompt : IsPrompt fixed_point clock (timeout fixed_point)
clock-IsPrompt = record { next = λ n. ground arith; after_next = λ n. ground arith }

clock-IsCount : IsCount fixed_point clock remaining
clock-IsCount = record { before = λ d n h. ground arith; falls = λ d m n h. omega arith }

abbrev resting : Controller fixed_point
resting = record {
  position = pos 100_000;
  target = 1000;
  last = pos 500;
  reads = 1;
  accepts_retarget = true;
  has_lens = true;
}

resting-IsFine : IsFine fixed_point clock resting
resting-IsFine = record {
  last_before = refl;
  position_low = refl;
  position_high = refl;
  target_fits = omega arith;
}

-- A cycle with a target 200 steps away: the lens is read to be at 1080, and stops there.
cycle_lem :
    (retarget_cycle fixed_point system (pos 1200) (pos 50) (at_rest fixed_point resting)).0
    ≡ ok (record { commanded_at = pos 1080; stopped_at = pos 1080 })
unfolding retarget_cycle pseudo_halt settle settle_loop ask read_line read_loop frame unframe check
    parse_position parse_is_moving int_of signed_value digits_value lstrip rstrip decimal
    decimal_from serve_chunk reply answer argument advance Pinefeat.move_to
cycle_lem = refl

-- With a target where the lens is, the cycle ends early.
early_lem :
    (retarget_cycle fixed_point system (pos 1000) (pos 50) (at_rest fixed_point resting)).0
    ≡ err (finished_early (pos 1000))
unfolding retarget_cycle pseudo_halt settle settle_loop ask read_line read_loop frame unframe check
    parse_position parse_is_moving int_of signed_value digits_value lstrip rstrip decimal
    decimal_from serve_chunk reply answer argument advance Pinefeat.move_to
early_lem = refl

abbrev options : Options fixed_point
options = record { test = true; cycles = pos 1; travel = pos 200; delay = pos 50 }

bench_ends_example :
    (bench fixed_point system options (at_rest fixed_point resting)).0 ≢ err out_of_fuel
bench_ends_example =
    bench_ends fixed_point system
      (pty-IsPassing fixed_point clock no_float (pos 280) (pos 2260) remaining clock-IsCount)
      options (at_rest fixed_point resting)

scan_targets-Covers_example :
    ((negsuc 99 ≡ pos 0) × (scan_targets (pos 450) (pos 100) (negsuc 99) ≡ err bad_option))
    ⊎ ((targets : List ℤ) × (scan_targets (pos 450) (pos 100) (negsuc 99) ≡ ok targets)
        × Covers (pos 450) (pos 100) (negsuc 99) targets)
scan_targets-Covers_example = scan_targets-Covers (pos 450) (pos 100) (negsuc 99)

-- The mathematics of Python is not used by the commands.
abbrev maths : Maths fixed_point
maths = record {
  log2 = λ x. x;
  exp2 = λ x. x;
  float_of = no_float;
  format_5 = λ x. [];
  reference = pos 560;
  floor = pos 33;
  hundredth = pos 1;
}

-- "v" and " r"
abbrev commands : List Text
commands = (b'v' ∷ []) ∷ (b' ' ∷ b'r' ∷ []) ∷ []

abbrev quiet : Pty fixed_point × List Bytes
quiet = (at_rest fixed_point resting, [])

sends :
    (send_all fixed_point (traced fixed_point system) maths 0 (pos 200) commands quiet).0 ≡ ok tt
unfolding send_all send_one ask read_line read_loop frame unframe lstrip rstrip decimal decimal_from
    serve_chunk reply answer argument advance
sends = refl

send_all-log_example :
    (send_all fixed_point (traced fixed_point system) maths 0 (pos 200) commands quiet).1.1
    ≡ (b'v' ∷ 10 ∷ []) ∷ (b'r' ∷ 10 ∷ []) ∷ []
unfolding lstrip rstrip
send_all-log_example = send_all-log fixed_point system maths 0 (pos 200) commands quiet sends

identify-range_example :
    ((identify fixed_point system (at_rest fixed_point resting)).0 ≡ ok (pos 0, pos 9999))
    × ((identify fixed_point system (at_rest fixed_point resting)).1.server.controller.target
        ≡ 1000)
identify-range_example =
    identify-range fixed_point fixed_point-IsFloat clock clock-IsMonotonic no_float (pos 280)
      (pos 2260) remaining clock-IsPrompt resting resting-IsFine

-- The tool on a port, with no option
abbrev plain : Arguments fixed_point
plain = record {
  port = some (b'p' ∷ []);
  bench_options = record options { test = false };
  send = none;
  calibrate = false;
  vet = none;
  focus = none;
  aperture = none;
  scan = none;
  dwell = pos 300;
  timeout = pos 200;
}

plain-IsPlain : IsPlain fixed_point plain
plain-IsPlain = record {
  vet = refl;
  calibrate = refl;
  aperture = refl;
  focus = refl;
  scan = refl;
  send = refl;
  test = refl;
}

main-Writes_example :
    let r = main fixed_point (traced fixed_point system) maths 0 [] plain quiet in
    (n : ℕ) × (r.1.1 ≡ [] ++ take n questions)
    × (n ≤ 4)
    × (r.0 ≡ ok 0 → n ≡ 4)
    × (r.1 ≡ (in_turn fixed_point system asked quiet).1)
main-Writes_example =
    main-Writes fixed_point system maths 0 [] (b'p' ∷ []) plain quiet (unfold find_port in refl)
      plain-IsPlain
