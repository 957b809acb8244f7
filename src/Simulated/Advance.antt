-- ===== src/Simulated/Advance.antt =====
-- `_advance` goes towards the target and never past it.
use zwo_eaf_proxy.Base.{ℕ, suc, Bool-cases, inl, inr}
use zwo_eaf_proxy.Base.Int.{pos}
use zwo_eaf_proxy.Float.{Float, IsFloat, Le}
use zwo_eaf_proxy.Simulated.{Simulated, moved, advance}

-- The clock never runs backwards.
abbrev pub IsMonotonic : (f : Float) → (ℕ → f.F) → Type 0
IsMonotonic f clock = (n : ℕ) → Le f (clock n) (clock (suc n))

-- The rate is not negative, and the last reading lies before the next.
pub record IsTimed (f : Float) (clock : ℕ → f.F) (s : Simulated f) : Type 0 where
  pub rate_nonneg : Le f (f.of_int (pos 0)) s.rate
  pub last_before : Le f s.last (clock s.reads)

module _ (f : Float) (laws : IsFloat f) (clock : ℕ → f.F) (mono : IsMonotonic f clock) where
  pub advance-IsTimed : (s : Simulated f) → IsTimed f clock s → IsTimed f clock (advance f clock s)
  unfolding advance
  advance-IsTimed s t = record { rate_nonneg = t.rate_nonneg; last_before = mono s.reads }

  step_nonneg :
      (s : Simulated f)
      → IsTimed f clock s
      → Le f (f.of_int (pos 0)) (f.mul s.rate (f.sub (clock s.reads) s.last))
  step_nonneg s t = laws.mul_nonneg _ _ t.rate_nonneg (laws.sub_nonneg _ _ t.last_before)

  -- A bound from below on the position and the target is kept, and so is one from above.
  moved_between :
      (s : Simulated f) (step lo hi : f.F)
      → Le f (f.of_int (pos 0)) step
      → Le f lo s.position × Le f s.position hi
      → Le f lo (f.of_int s.target) × Le f (f.of_int s.target) hi
      → Le f lo (moved f clock s (f.sub (f.of_int s.target) s.position) step)
        × Le f (moved f clock s (f.sub (f.of_int s.target) s.position) step) hi
  unfolding moved
  moved_between s step lo hi h p t =
      let rem = f.sub (f.of_int s.target) s.position in
      elim (Bool-cases (f.eq rem (f.of_int (pos 0)))) [
        | inl there ↦ rw there p
        | inr away ↦ elim (Bool-cases (f.le (f.abs rem) step)) [
          | inl arrives ↦ rw (away, arrives) t
          | inr short ↦ elim (Bool-cases (f.le rem (f.of_int (pos 0)))) [
            | inl down ↦
                rw (away, short, down)
                  (
                    laws.le_trans _ _ _ t.0 (laws.sub_before s.position step _ down short),
                    laws.le_trans _ _ _ (laws.sub_down s.position step h) p.1,
                  )
            | inr up ↦
                rw (away, short, up)
                  (
                    laws.le_trans _ _ _ p.0 (laws.add_up s.position step h),
                    laws.le_trans _ _ _ (laws.add_before s.position step _ up short) t.1,
                  )
          ]
        ]
      ]

  -- Bounds on where the focuser is and where it goes hold of where it is next.
  pub advance_between :
      (s : Simulated f) (lo hi : f.F)
      → IsTimed f clock s
      → Le f lo s.position × Le f s.position hi
      → Le f lo (f.of_int s.target) × Le f (f.of_int s.target) hi
      → Le f lo (advance f clock s).position × Le f (advance f clock s).position hi
  unfolding advance
  advance_between s lo hi h p t = moved_between s _ lo hi (step_nonneg s h) p t

  -- The target is reached in the first reading after which the way is covered.
  pub advance_arrives :
      (s : Simulated f)
      → Le f
          (f.abs (f.sub (f.of_int s.target) s.position))
          (f.mul s.rate (f.sub (clock s.reads) s.last))
      → Le f (f.of_int s.target) (advance f clock s).position
        × Le f (advance f clock s).position (f.of_int s.target)
  unfolding advance moved
  advance_arrives s near =
      let rem = f.sub (f.of_int s.target) s.position in
      elim (Bool-cases (f.eq rem (f.of_int (pos 0)))) [
        | inl there ↦ rw there (laws.sub_zero _ _ there)
        | inr away ↦ rw (away, near) (laws.le_refl _, laws.le_refl _)
      ]
