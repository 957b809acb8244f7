-- ===== src/Simulated/Tests.antt =====
-- Runs of the simulated focuser, and its theorems at a concrete state.
use zwo_eaf_proxy.Base.{ℕ, ◌*◌, refl, List, [], ◌∷◌, arith}
use zwo_eaf_proxy.Base.Int.{ℤ, pos}
use zwo_eaf_proxy.Float.{Le}
use zwo_eaf_proxy.Float.FixedPoint.{fixed_point, fixed_point-IsFloat}
use zwo_eaf_proxy.Simulated.{Simulated, moved, advance, position, halt, tick}
use zwo_eaf_proxy.Simulated.Advance.{IsMonotonic, advance_between}
use zwo_eaf_proxy.Simulated.Safety.{IsSafe}
use zwo_eaf_proxy.Simulated.Rest.{
  Query, ask_position, ask_moving, ask_tick, queries, ReportsRest, halt_rests, arrival_rests,
}

-- A reading each second; the fixed-point numbers are hundredths.
abbrev pub clock : ℕ → ℤ
clock n = pos (100 * n)

pub clock-IsMonotonic : IsMonotonic fixed_point clock
clock-IsMonotonic n = ground arith

-- At step 10, on the way to 25, two steps a second.
abbrev pub running : Simulated fixed_point
running = record {
  position = pos 1000;
  target = pos 25;
  rate = pos 200;
  temperature_centi = pos 1850;
  last = pos 0;
  reads = 1;
}

pub running-IsSafe : IsSafe fixed_point clock running
running-IsSafe = record {
  timed = record { rate_nonneg = refl; last_before = refl };
  position_low = refl;
  position_high = refl;
  target_low = omega arith;
  target_high = omega arith;
}

advance_between_example :
    Le fixed_point (pos 1000) (advance fixed_point clock running).position
    × Le fixed_point (advance fixed_point clock running).position (pos 2500)
advance_between_example =
    advance_between fixed_point fixed_point-IsFloat clock clock-IsMonotonic running (pos 1000)
      (pos 2500) running-IsSafe.timed (refl, refl) (refl, refl)

abbrev polls : List Query
polls = ask_moving ∷ ask_tick ∷ ask_position ∷ []

halt_rests_example :
    ReportsRest fixed_point clock
      (pos 12)
      (queries fixed_point clock polls (halt fixed_point clock running).1)
unfolding position advance moved
halt_rests_example =
    halt_rests fixed_point clock fixed_point-IsFloat clock-IsMonotonic running polls running-IsSafe

-- One second at two steps a second covers the last step and a half.
abbrev arriving : Simulated fixed_point
arriving = record running { position = pos 2350 }

arriving-IsSafe : IsSafe fixed_point clock arriving
arriving-IsSafe = record {
  timed = record { rate_nonneg = refl; last_before = refl };
  position_low = refl;
  position_high = refl;
  target_low = omega arith;
  target_high = omega arith;
}

arrival_rests_example :
    ReportsRest fixed_point clock
      (pos 25)
      (queries fixed_point clock polls (tick fixed_point clock arriving))
arrival_rests_example =
    arrival_rests fixed_point clock fixed_point-IsFloat clock-IsMonotonic arriving polls
      arriving-IsSafe refl
