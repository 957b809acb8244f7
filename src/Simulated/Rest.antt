-- ===== src/Simulated/Rest.antt =====
-- A focuser at rest: after a halt, an arrival or a new position, no query finds it moving.
use zwo_eaf_proxy.Base.{ℕ, ◌^◌, ◌<◌, ◌≡◌, refl, ◌∙◌, false, List, [], ◌∷◌, arith}
use zwo_eaf_proxy.Base.Int.{ℤ, pos, le_antisymm_ℤ}
use zwo_eaf_proxy.Float.{Float, IsFloat, Le}
use zwo_eaf_proxy.Simulated.{
  Simulated, advance, position, halt, is_moving, set_position, tick, temperature, max_step, begin,
}
use zwo_eaf_proxy.Simulated.Safety.{IsSafe, trunc_exact, trunc_range, advance_range}
use zwo_eaf_proxy.Simulated.Advance.{
  IsMonotonic, IsTimed, advance-IsTimed, advance_between, advance_arrives,
}

-- The calls that ask the focuser something, or let it advance.
pub data Query : Type 0 where
  ask_position ask_moving ask_temperature ask_max_step ask_begin ask_tick : Query

module _ (f : Float) (clock : ℕ → f.F) where
  abbrev pub query : Query → Simulated f → Simulated f
  query ask_position s = (position f clock s).1
  query ask_moving s = (is_moving f clock s).1
  query ask_temperature s = (temperature f clock s).1
  query ask_max_step s = (max_step f clock s).1
  query ask_begin s = (begin f clock s).1
  query ask_tick s = tick f clock s

  abbrev pub queries : List Query → Simulated f → Simulated f
  queries [] s = s
  queries (q ∷ qs) s = queries qs (query q s)

  -- The focuser stands on its target, up to the fraction of a step that `int` cuts off.
  pub record IsAtRest (s : Simulated f) : Type 0 where
    pub timed : IsTimed f clock s
    pub at_target : f.trunc s.position ≡ s.target
    pub exact : f.trunc (f.of_int s.target) ≡ s.target
    pub above : Le f (f.of_int s.target) s.position

  -- What a host sees of a focuser that rests at `n`.
  abbrev pub ReportsRest : ℤ → Simulated f → Type 0
  ReportsRest n s = ((position f clock s).0 ≡ n) × ((is_moving f clock s).0 ≡ false)

  module _ (laws : IsFloat f) (mono : IsMonotonic f clock) where
    sandwich :
        (a b c : f.F) (n : ℤ) → Le f a b → Le f b c → f.trunc a ≡ n → f.trunc c ≡ n → f.trunc b ≡ n
    sandwich a b c n h k p q =
        le_antisymm_ℤ _ _ (rw q at (laws.trunc_mono b c k)) (rw p at (laws.trunc_mono a b h))

    advance-IsAtRest : (s : Simulated f) → IsAtRest s → IsAtRest (advance f clock s)
    unfolding advance
    advance-IsAtRest s r =
        let timed = advance-IsTimed f laws clock mono s r.timed in
        let (lo, hi) =
          advance_between f laws clock mono s (f.of_int s.target) s.position r.timed
            (r.above, laws.le_refl _) (laws.le_refl _, r.above) in
        record {
          timed = timed;
          at_target = sandwich _ _ _ s.target lo hi r.exact r.at_target;
          exact = r.exact;
          above = lo;
        }

    query-IsAtRest :
        (q : Query) (s : Simulated f)
        → IsAtRest s
        → IsAtRest (query q s) × ((query q s).target ≡ s.target)
    unfolding position is_moving tick begin max_step temperature
    query-IsAtRest ask_position s r = (advance-IsAtRest s r, unfold advance in refl)
    query-IsAtRest ask_moving s r = (advance-IsAtRest s r, unfold advance in refl)
    query-IsAtRest ask_tick s r = (advance-IsAtRest s r, unfold advance in refl)
    query-IsAtRest ask_temperature s r = (r, refl)
    query-IsAtRest ask_max_step s r = (r, refl)
    query-IsAtRest ask_begin s r = (r, refl)

    reports : (s : Simulated f) → IsAtRest s → ReportsRest s.target s
    unfolding position is_moving advance
    reports s r = let e = (advance-IsAtRest s r).at_target in (e, rw e (ground arith))

    rests :
        (n : ℤ) (qs : List Query) (s : Simulated f)
        → IsAtRest s
        → s.target ≡ n
        → ReportsRest n (queries qs s)
    rests n [] s r e = let (p, m) = reports s r in (p ∙ e, m)
    rests n (q ∷ qs) s r e = let (r', t) = query-IsAtRest q s r in rests n qs (query q s) r' (t ∙ e)

    halt-IsAtRest :
        (s : Simulated f)
        → IsSafe f clock s
        → IsAtRest (halt f clock s).1 × ((halt f clock s).1.target ≡ (position f clock s).0)
    unfolding halt position
    halt-IsAtRest s h =
        let (lo, hi) = advance_range f laws clock mono s h in
        let (a, b) = trunc_range f laws _ lo hi in
        let t = advance-IsTimed f laws clock mono s h.timed in
        (
          record {
            timed = record { rate_nonneg = t.rate_nonneg; last_before = t.last_before };
            at_target = refl;
            exact = trunc_exact f laws _ a b;
            above = laws.trunc_below _ lo;
          },
          refl,
        )

    -- After a halt the focuser stays where it was at that moment: whatever is asked of it, and
    -- however the time passes, it reports that position and does not move.
    pub halt_rests :
        (s : Simulated f) (qs : List Query)
        → IsSafe f clock s
        → ReportsRest (position f clock s).0 (queries qs (halt f clock s).1)
    halt_rests s qs h = let (r, e) = halt-IsAtRest s h in rests _ qs _ r e

    tick-IsAtRest :
        (s : Simulated f)
        → IsSafe f clock s
        → Le f
            (f.abs (f.sub (f.of_int s.target) s.position))
            (f.mul s.rate (f.sub (clock s.reads) s.last))
        → IsAtRest (tick f clock s) × ((tick f clock s).target ≡ s.target)
    unfolding tick advance
    tick-IsAtRest s h near =
        let (lo, hi) = advance_arrives f laws clock mono s near in
        let t = advance-IsTimed f laws clock mono s h.timed in
        let e = trunc_exact f laws s.target h.target_low h.target_high in
        (
          record {
            timed = t;
            at_target = sandwich _ _ _ s.target lo hi e e;
            exact = e;
            above = lo;
          },
          refl,
        )

    -- Once the time since the last reading covers the way that is left, the focuser has arrived:
    -- from then on it reports its target and does not move.
    pub arrival_rests :
        (s : Simulated f) (qs : List Query)
        → IsSafe f clock s
        → Le f
            (f.abs (f.sub (f.of_int s.target) s.position))
            (f.mul s.rate (f.sub (clock s.reads) s.last))
        → ReportsRest s.target (queries qs (tick f clock s))
    arrival_rests s qs h near = let (r, e) = tick-IsAtRest s h near in rests _ qs _ r e

    set_position_lem :
        (n : ℕ) (s : Simulated f)
        → (set_position f clock (pos n) s).1
          ≡ record (advance f clock s) { position = f.of_int (pos n); target = pos n }
    unfolding set_position
    set_position_lem n s = ground arith

    set_position-IsAtRest :
        (n : ℕ) (s : Simulated f)
        → n < 2 ^ 32
        → IsSafe f clock s
        → IsAtRest (set_position f clock (pos n) s).1
          × ((set_position f clock (pos n) s).1.target ≡ pos n)
    set_position-IsAtRest n s k h =
        let t = advance-IsTimed f laws clock mono s h.timed in
        let e = trunc_exact f laws (pos n) (omega arith) (omega arith) in
        rw (set_position_lem n s) (
          record {
            timed = record { rate_nonneg = t.rate_nonneg; last_before = t.last_before };
            at_target = e;
            exact = e;
            above = laws.le_refl _;
          },
          refl,
        )

    -- A position that the host sets is reported from then on, and the focuser does not move.
    pub set_position_rests :
        (n : ℕ) (s : Simulated f) (qs : List Query)
        → n < 2 ^ 32
        → IsSafe f clock s
        → ReportsRest (pos n) (queries qs (set_position f clock (pos n) s).1)
    set_position_rests n s qs k h = let (r, e) = set_position-IsAtRest n s k h in rests _ qs _ r e
