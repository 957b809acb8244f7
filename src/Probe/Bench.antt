-- ===== src/Probe/Bench.antt =====
-- The tool's parts behind the port: `usable`, `identify`, `settle`, `retarget_cycle`, and the test of
-- `main`. What is printed is left out.
pub mod Targets
pub mod Quiet
pub mod Turns
pub mod Ends
use zwo_eaf_proxy.Base.{
  ℕ, zero, suc, ◌+◌, Bool, true, false, not, ◌||◌, Option, none, some, List, [], ◌∷◌, ◌++◌, leb,
  ◌==◌, if◌then◌else◌,
}
use zwo_eaf_proxy.Base.Int.{ℤ, pos, pos_part, neg_part, ◌+ℤ◌, ◌-ℤ◌, leb_ℤ, max_ℤ}
use zwo_eaf_proxy.Base.Result.{Result, ok, err}
use zwo_eaf_proxy.Base.Bytes.{bytes_eq}
use zwo_eaf_proxy.Float.{Float}
use zwo_eaf_proxy.Text.{Text, partition}
use zwo_eaf_proxy.Pinefeat
use zwo_eaf_proxy.Pinefeat.{
  ok_text, get_version, get_position, is_moving_command, get_range, calibrate, LinkError,
  pinefeat_error, check, parse_position, parse_is_moving, to_int,
}
use zwo_eaf_proxy.Probe.{
  Os, ProbeError, link_error, no_reply, still_moving, finished_early, negative_timeout, no_cycles,
  out_of_fuel, Action, pure, raise, lift, call, after, ◌>>=◌, ◌>>◌,
}
use zwo_eaf_proxy.Probe.Port.{timeout, ask}

-- `ENVELOPE`
abbrev pub envelope : ℕ
envelope = 353

-- `Cycle`
pub record Cycle : Type 0 where
  pub commanded_at : ℤ
  pub stopped_at : ℤ

abbrev pub overshoot : Cycle → ℤ
overshoot c = c.stopped_at -ℤ c.commanded_at

-- `NO_LENS_DATA` and `CALIBRATION_FAILED`
abbrev pub no_lens_data : Text
no_lens_data = b'0' ∷ b'-' ∷ b'6' ∷ b'5' ∷ b'5' ∷ b'3' ∷ b'5' ∷ []

abbrev pub calibration_failed : Text
calibration_failed = b'0' ∷ b'-' ∷ b'0' ∷ []

abbrev pub usable : Text → Bool
usable raw_range = not (bytes_eq raw_range no_lens_data || bytes_eq raw_range calibration_failed)

-- `low or 0`
abbrev pub or_zero : Text → Text
or_zero [] = b'0' ∷ []
or_zero (c ∷ cs) = c ∷ cs

module _ (f : Float) (o : Os f) where
  -- `int(low or 0), int(high)`
  abbrev pub parse_range : Text → Action o.State (ℤ × ℤ)
  parse_range raw_range = do
    low ← lift (to_int (or_zero (partition b'-' raw_range).0))
    high ← lift (to_int (partition b'-' raw_range).1)
    pure (low, high)

  -- `identify`
  unfoldable pub identify : Action o.State (ℤ × ℤ)
  identify = do
    reply ← ask f o get_version (timeout f)
    lift (check reply)
    range_reply ← ask f o get_range (timeout f)
    raw_range ← lift (check range_reply)
    position_reply ← ask f o get_position (timeout f)
    lift (parse_position position_reply)
    moving_reply ← ask f o is_moving_command (timeout f)
    lift (parse_is_moving moving_reply)
    parse_range raw_range

  -- `pinefeat.parse_is_moving(port.ask(pinefeat.IS_MOVING))`, and the position likewise
  abbrev pub ask_moving : Action o.State Bool
  ask_moving = ask f o is_moving_command (timeout f) >>= λ reply. lift (parse_is_moving reply)

  abbrev pub ask_position : Action o.State ℤ
  ask_position = ask f o get_position (timeout f) >>= λ reply. lift (parse_position reply)

  -- `pinefeat.check(port.ask(pinefeat.move_to(target)))`
  abbrev pub command_move : ℤ → Action o.State Text
  command_move target =
      ask f o (Pinefeat.move_to target) (timeout f) >>= λ reply. lift (check reply)

  -- `time.sleep`
  abbrev pub pause : f.F → Action o.State (Unit {0})
  pause seconds s = (ok tt, o.sleep seconds s)

  -- The loop of `settle`; 0.05 is five hundredths.
  abbrev pub settled : Action o.State ℤ → Bool → Action o.State ℤ
  settled again false = ask_position
  settled again true = pause (f.div (f.of_int (pos 5)) (f.of_int (pos 100))) >> again

  unfoldable pub settle_loop : ℕ → f.F → Action o.State ℤ
  settle_loop zero deadline = raise out_of_fuel
  settle_loop (suc k) deadline = call o.monotonic >>= λ now.
      if f.le deadline now
      then raise still_moving
      else ask_moving >>= settled (settle_loop k deadline)

  -- `settle`, whose timeout of 30 seconds is never given otherwise
  unfoldable pub settle : Action o.State ℤ
  settle = call o.monotonic >>= λ now. λ s.
      let deadline = f.add now (f.of_int (pos 30)) in
      settle_loop (suc (o.readings deadline s)) deadline s

  -- The pseudo-halt of `retarget_cycle`: read, then retarget.
  unfoldable pub pseudo_halt : Action o.State Cycle
  pseudo_halt = do
    commanded_at ← ask_position
    command_move commanded_at
    stopped_at ← settle
    pure (record { commanded_at = commanded_at; stopped_at = stopped_at })

  -- `retarget_cycle`
  unfoldable pub retarget_cycle : ℤ → f.F → Action o.State Cycle
  retarget_cycle target delay = command_move target >> pause delay >> ask_moving >>= λ moving.
      if moving then pseudo_halt else raise (finished_early target)

-- Where a cycle of the test moves to, from `start` within the range from `low` to `high`.
unfoldable pub next_target : ℤ → ℤ → ℤ → ℤ → ℤ
next_target low high start travel =
    if leb_ℤ (start +ℤ travel) high then start +ℤ travel else max_ℤ low (start -ℤ travel)

-- `abs(c.overshoot)`
abbrev pub abs_ℤ : ℤ → ℕ
abs_ℤ z = pos_part z + neg_part z

-- `max` of a list with a first entry
abbrev pub worst_of : ℕ → List Cycle → ℕ
worst_of m [] = m
worst_of m (c ∷ cs) = worst_of (if leb m (abs_ℤ (overshoot c)) then abs_ℤ (overshoot c) else m) cs

-- The two verdicts.
pub data Verdict : Type 0 where
  viable out_of_envelope : Verdict

-- `worst = max(...)`, which raises on an empty list, and the verdict on it
unfoldable pub judge : List Cycle → Result ProbeError Verdict
judge [] = err no_cycles
judge (c ∷ cs) =
    ok (if leb (worst_of (abs_ℤ (overshoot c)) cs) envelope then viable else out_of_envelope)

-- The options of the command line that the test reads.
pub record Options (f : Float) : Type 0 where
  pub test : Bool
  pub cycles : ℤ
  pub travel : ℤ
  pub delay : f.F

-- What a run prints last, of which its exit status depends.
pub data Outcome : Type 0 where
  identified refused no_focuser : Outcome
  judged : Verdict → Outcome

module _ (f : Float) (o : Os f) where
  -- `for n in range(args.cycles)`, with the cycles in order.
  unfoldable pub run_cycles : ℕ → ℤ → ℤ → ℤ → ℤ → f.F → Action o.State (List Cycle)
  run_cycles zero low high start travel delay = pure []
  run_cycles (suc n) low high start travel delay = do
    cycle ← retarget_cycle f o (next_target low high start travel) delay
    command_move f o start
    settle f o
    rest ← run_cycles n low high start travel delay
    pure (cycle ∷ rest)

  -- The test, with a usable range
  unfoldable pub measure : Options f → Text → Action o.State Outcome
  measure args raw_range = do
    (low, high) ← parse_range f o raw_range
    start ← settle f o
    cycles ← run_cycles (pos_part args.cycles) low high start args.travel args.delay
    λ s. after (judge cycles, s) (λ v. pure (judged v))

  -- The calibration in front of the test
  unfoldable pub calibrated : Options f → Text → Action o.State Outcome
  calibrated args reply =
      if not (bytes_eq reply ok_text)
      then pure refused
      else ask f o get_range (timeout f) >>= λ answer. lift (check answer) >>= λ raw_range.
          if not (usable raw_range) then pure no_focuser else measure args raw_range

  -- The `try` of `main`: identify, and the test if it is asked for
  unfoldable pub bench : Options f → Action o.State Outcome
  bench args =
      identify f o
      >> (if not args.test
          then pure identified
          else ask f o calibrate (f.of_int (pos 30)) >>= calibrated args)

-- The exit status: `except` takes a `PinefeatError`, which is a `RuntimeError`, a `TimeoutError` and
-- the `RuntimeError` of a cycle. Every other exception is passed on.
unfoldable pub status : Result ProbeError Outcome → Result ProbeError ℕ
status (ok refused) = ok 1
status (ok no_focuser) = ok 1
status (ok _) = ok 0
status (err (link_error (pinefeat_error reply))) = ok 1
status (err (no_reply buf)) = ok 1
status (err still_moving) = ok 1
status (err (finished_early target)) = ok 1
status (err e) = err e
