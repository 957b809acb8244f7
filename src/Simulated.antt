-- ===== src/Simulated.antt =====
-- host/src/zwoproxy/backends/simulated.py: a focuser in memory, which moves with the clock.
-- `clock n` is what the n-th call of `time.monotonic()` returns; the state counts the calls.
pub mod Advance
pub mod Safety
pub mod Rest
pub mod Tests
use zwo_eaf_proxy.Base.{ℕ, suc, ◌^◌, ◌-◌, Bool, true, false, not, Option, none, some, if◌then◌else◌}
use zwo_eaf_proxy.Base.Int.{ℤ, pos, ltb_ℤ, eqb_ℤ}
use zwo_eaf_proxy.Base.Result.{Result, ok, err}
use zwo_eaf_proxy.Float.{Float}
use zwo_eaf_proxy.Focuser.{Focuser, unsupported}

-- The attributes of a `SimulatedFocuser`, and the number of clock readings so far.
pub record Simulated (f : Float) : Type 0 where
  pub position : f.F
  pub target : ℤ
  pub rate : f.F
  pub temperature_centi : ℤ
  pub last : f.F
  pub reads : ℕ

-- The `ValueError` of `__init__`.
pub data RateError : Type 0 where
  rate_not_positive : RateError

module _ (f : Float) (clock : ℕ → f.F) where
  -- `__init__`, whose clock reading is the one numbered `reads`.
  unfoldable pub init : ℤ → f.F → Option f.F → ℕ → Result RateError (Simulated f)
  init position steps_per_second celsius reads =
      if f.le steps_per_second (f.of_int (pos 0))
      then err rate_not_positive
      else ok (record {
        position = f.of_int position;
        target = position;
        rate = steps_per_second;
        temperature_centi = elim celsius [
          | none ↦ unsupported
          | some c ↦ f.round (f.mul c (f.of_int (pos 100)))
        ];
        last = clock reads;
        reads = suc reads;
      })

  -- `_advance`: where the position is after `step`, with `remaining` to go.
  unfoldable pub moved : Simulated f → f.F → f.F → f.F
  moved s remaining step =
      if f.eq remaining (f.of_int (pos 0))
      then s.position
      else if f.le (f.abs remaining) step
      then f.of_int s.target
      else f.add s.position (if not (f.le remaining (f.of_int (pos 0))) then step else f.neg step)

  unfoldable pub advance : Simulated f → Simulated f
  advance s =
      let now = clock s.reads in
      let remaining = f.sub (f.of_int s.target) s.position in
      let elapsed = f.sub now s.last in
      record s {
        position = moved s remaining (f.mul s.rate elapsed);
        last = now;
        reads = suc s.reads;
      }

  unfoldable pub begin : Simulated f → Bool × Simulated f
  begin s = (true, s)

  unfoldable pub position : Simulated f → ℤ × Simulated f
  position s = let s' = advance s in (f.trunc s'.position, s')

  unfoldable pub move_to : ℤ → Simulated f → Bool × Simulated f
  move_to target s =
      if ltb_ℤ target (pos 0)
      then (false, s)
      else (true, let s' = advance s in record s' { target = target })

  unfoldable pub halt : Simulated f → Bool × Simulated f
  halt s = let s' = advance s in (true, record s' { target = f.trunc s'.position })

  unfoldable pub set_position : ℤ → Simulated f → Bool × Simulated f
  set_position n s =
      if ltb_ℤ n (pos 0)
      then (false, s)
      else (true, let s' = advance s in record s' { position = f.of_int n; target = n })

  unfoldable pub is_moving : Simulated f → Bool × Simulated f
  is_moving s = let s' = advance s in (not (eqb_ℤ (f.trunc s'.position) s'.target), s')

  unfoldable pub max_step : Simulated f → ℤ × Simulated f
  max_step s = (pos 0x7FFFFFFF, s)

  unfoldable pub temperature : Simulated f → ℤ × Simulated f
  temperature s = (s.temperature_centi, s)

  unfoldable pub tick : Simulated f → Simulated f
  tick s = advance s

  -- The class as a `Focuser`.
  abbrev pub simulated : Focuser
  simulated = record {
    State = Simulated f;
    begin = begin;
    position = position;
    move_to = move_to;
    halt = halt;
    set_position = set_position;
    is_moving = is_moving;
    max_step = max_step;
    temperature = temperature;
    tick = tick;
  }
