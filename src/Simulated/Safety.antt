-- ===== src/Simulated/Safety.antt =====
-- The simulated focuser keeps the contract of focuser.py: its step count fits the wire.
use zwo_eaf_proxy.Base.{ℕ, ◌^◌, ◌-◌, ◌<◌, ◌≡◌, false, Option, arith}
use zwo_eaf_proxy.Base.Int.{ℤ, pos, ◌≤ℤ◌}
use zwo_eaf_proxy.Base.Result.{Yields}
use zwo_eaf_proxy.Float.{Float, IsFloat, Le}
use zwo_eaf_proxy.Focuser.{Contract}
use zwo_eaf_proxy.Simulated.{
  Simulated, advance, position, move_to, halt, is_moving, set_position, temperature, simulated,
  init,
}
use zwo_eaf_proxy.Simulated.Advance.{IsMonotonic, IsTimed, advance-IsTimed, advance_between}

abbrev pub max_position : ℤ
max_position = pos (2 ^ 32 - 1)

-- The position and the target are of four bytes.
pub record IsSafe (f : Float) (clock : ℕ → f.F) (s : Simulated f) : Type 0 where
  pub timed : IsTimed f clock s
  pub position_low : Le f (f.of_int (pos 0)) s.position
  pub position_high : Le f s.position (f.of_int max_position)
  pub target_low : pos 0 ≤ℤ s.target
  pub target_high : s.target ≤ℤ max_position

module _ (f : Float) (laws : IsFloat f) where
  -- `int` gives back an integer of four bytes, and keeps a float in its range.
  pub trunc_exact : (n : ℤ) → pos 0 ≤ℤ n → n ≤ℤ max_position → f.trunc (f.of_int n) ≡ n
  trunc_exact n h k = laws.trunc_of_int n (omega arith) (omega arith)

  pub trunc_range :
      (a : f.F)
      → Le f (f.of_int (pos 0)) a
      → Le f a (f.of_int max_position)
      → (pos 0 ≤ℤ f.trunc a) × (f.trunc a ≤ℤ max_position)
  trunc_range a h k = (
    rw (trunc_exact (pos 0) (omega arith) (omega arith)) at (laws.trunc_mono _ a h),
    rw (trunc_exact max_position (omega arith) (omega arith)) at (laws.trunc_mono a _ k),
  )

  pub of_int_range :
      (n : ℤ)
      → pos 0 ≤ℤ n
      → n ≤ℤ max_position
      → Le f (f.of_int (pos 0)) (f.of_int n) × Le f (f.of_int n) (f.of_int max_position)
  of_int_range n h k = (laws.of_int_mono (pos 0) n h, laws.of_int_mono n max_position k)

  module _ (clock : ℕ → f.F) (mono : IsMonotonic f clock) where
    pub advance_range :
        (s : Simulated f)
        → IsSafe f clock s
        → Le f (f.of_int (pos 0)) (advance f clock s).position
          × Le f (advance f clock s).position (f.of_int max_position)
    advance_range s h =
        advance_between f laws clock mono s _ _ h.timed (h.position_low, h.position_high)
          (of_int_range s.target h.target_low h.target_high)

    -- The position and the target are put where they are safe, after an advance.
    aim :
        (s : Simulated f) (n : ℤ)
        → IsSafe f clock s
        → pos 0 ≤ℤ n
        → n ≤ℤ max_position
        → IsSafe f clock (record (advance f clock s) { target = n })
    aim s n h lo hi =
        let (a, b) = advance_range s h in
        let t = advance-IsTimed f laws clock mono s h.timed in
        record {
          timed = record { rate_nonneg = t.rate_nonneg; last_before = t.last_before };
          position_low = a;
          position_high = b;
          target_low = lo;
          target_high = hi;
        }

    pub advance-IsSafe : (s : Simulated f) → IsSafe f clock s → IsSafe f clock (advance f clock s)
    unfolding advance
    advance-IsSafe s h = aim s s.target h h.target_low h.target_high

    pub position_range :
        (s : Simulated f)
        → IsSafe f clock s
        → (pos 0 ≤ℤ (position f clock s).0) × ((position f clock s).0 ≤ℤ max_position)
    unfolding position
    position_range s h = let (a, b) = advance_range s h in trunc_range _ a b

    pub halt-IsSafe : (s : Simulated f) → IsSafe f clock s → IsSafe f clock (halt f clock s).1
    unfolding halt position
    halt-IsSafe s h = let (a, b) = position_range s h in aim s _ h a b

    pub move_to-IsSafe :
        (n : ℕ) (s : Simulated f)
        → n < 2 ^ 32
        → IsSafe f clock s
        → IsSafe f clock (move_to f clock (pos n) s).1
    unfolding move_to
    move_to-IsSafe n s k h = ground (arith, aim s (pos n) h (omega arith) (omega arith))

    placed :
        (s : Simulated f) (n : ℤ)
        → IsSafe f clock s
        → pos 0 ≤ℤ n
        → n ≤ℤ max_position
        → IsSafe f clock (record (advance f clock s) { position = f.of_int n; target = n })
    placed s n h lo hi =
        let (a, b) = of_int_range n lo hi in
        let t = advance-IsTimed f laws clock mono s h.timed in
        record {
          timed = record { rate_nonneg = t.rate_nonneg; last_before = t.last_before };
          position_low = a;
          position_high = b;
          target_low = lo;
          target_high = hi;
        }

    pub set_position-IsSafe :
        (n : ℕ) (s : Simulated f)
        → n < 2 ^ 32
        → IsSafe f clock s
        → IsSafe f clock (set_position f clock (pos n) s).1
    unfolding set_position
    set_position-IsSafe n s k h = ground (arith, placed s (pos n) h (omega arith) (omega arith))

    pub position-IsSafe :
        (s : Simulated f) → IsSafe f clock s → IsSafe f clock (position f clock s).1
    unfolding position
    position-IsSafe s h = advance-IsSafe s h

    pub is_moving-IsSafe :
        (s : Simulated f) → IsSafe f clock s → IsSafe f clock (is_moving f clock s).1
    unfolding is_moving
    is_moving-IsSafe s h = advance-IsSafe s h

    pub temperature-IsSafe :
        (s : Simulated f) → IsSafe f clock s → IsSafe f clock (temperature f clock s).1
    unfolding temperature
    temperature-IsSafe s h = h

    abbrev pub contract : Contract (simulated f clock)
    contract = record {
      IsSafe = IsSafe f clock;
      position_range = position_range;
      position_safe = position-IsSafe;
      move_to_safe = move_to-IsSafe;
      halt_safe = halt-IsSafe;
      set_position_safe = set_position-IsSafe;
      is_moving_safe = is_moving-IsSafe;
      temperature_safe = temperature-IsSafe;
    }

    -- A focuser that starts within four bytes, at a rate that `__init__` takes, is safe.
    pub init-IsSafe :
        (n : ℕ) (rate : f.F) (celsius : Option f.F) (reads : ℕ)
        → n < 2 ^ 32
        → f.le rate (f.of_int (pos 0)) ≡ false
        → Yields (IsSafe f clock) (init f clock (pos n) rate celsius reads)
    unfolding init
    init-IsSafe n rate celsius reads h e =
        let (a, b) = of_int_range (pos n) (omega arith) (omega arith) in
        rw e (record {
          timed = record { rate_nonneg = laws.le_total _ _ e; last_before = mono reads };
          position_low = a;
          position_high = b;
          target_low = omega arith;
          target_high = omega arith;
        })
