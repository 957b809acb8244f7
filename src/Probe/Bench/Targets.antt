-- ===== src/Probe/Bench/Targets.antt =====
-- Where the cycles of the test go.
use zwo_eaf_proxy.Base.{ℕ, ◌*◌, ◌≤◌, ◌≡◌, ◌⊎◌, arith}
use zwo_eaf_proxy.Base.Int.{ℤ, pos, ◌≤ℤ◌, ◌+ℤ◌, ◌-ℤ◌}
use zwo_eaf_proxy.Probe.Bench.{next_target, abs_ℤ}

-- From a start within the range, a cycle with a travel that is not negative stays within the range,
-- goes no further than the travel, and goes exactly that far unless the range is shorter than twice the travel.
pub next_target_bounds :
    (low high start : ℤ) (travel : ℕ)
    → low ≤ℤ start
    → start ≤ℤ high
    → let target = next_target low high start (pos travel) in
      (low ≤ℤ target)
      × (target ≤ℤ high)
      × (abs_ℤ (target -ℤ start) ≤ travel)
      × ((abs_ℤ (target -ℤ start) ≡ travel) ⊎ (high -ℤ low +ℤ pos 1 ≤ℤ pos (2 * travel)))
unfolding next_target
next_target_bounds low high start travel h k = ground arith
