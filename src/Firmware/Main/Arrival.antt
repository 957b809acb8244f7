-- ===== src/Firmware/Main/Arrival.antt =====
-- The focuser of the firmware arrives.
use zwo_eaf_proxy.Base.{ℕ, suc, ◌+◌, ◌*◌, ◌≤◌, ◌≡◌, refl, ap, ◌∙◌, true, false, List, arith, length}
use zwo_eaf_proxy.Base.Int.{ℤ, pos, negsuc, ◌≤ℤ◌, ◌-ℤ◌, leb_ℤ}
use zwo_eaf_proxy.Firmware.Simulated.{
  SimulatedFocuser, advance, times, magnitude, thousandth, position, is_moving,
}
use zwo_eaf_proxy.Firmware.Simulated.Advance.{place, advance-stepped, stepped_there}
use zwo_eaf_proxy.Firmware.Main.{loop_rounds}
use zwo_eaf_proxy.Firmware.Main.Loop.{Ascending, last_of, loop_rounds-lag}

thousandth-times : (z : ℤ) → thousandth (times 1000 z) ≡ z
thousandth-times (pos n) = ground arith
thousandth-times (negsuc n) = ground arith

longer : (m total r : ℕ) → m ≤ total → m * r ≤ total * r
longer m total r h = grind arith

covered : (z : ℤ) (m total r : ℕ) → z ≤ℤ pos (m * r) → m ≤ total → leb_ℤ z (pos (total * r)) ≡ true
covered z m total r h k = ground (arith, longer m total r k)

-- A focuser whose rate covers the way that is left in `m` milliseconds has arrived once the timer, which does
-- not run backwards and whose readings are less than 2^31 milliseconds apart, has gone on for `m` milliseconds
-- and one more for each round, and one: it reports its target and does not move.
pub loop_rounds-arrives :
    (r m : ℕ) (readings : List ℕ) (start : ℕ) (s : SimulatedFocuser)
    → s.rate ≡ pos r
    → Ascending start readings
    → magnitude (times 1000 s.target -ℤ s.position) ≤ℤ pos (m * r)
    → start + 1000 * (m + suc (length readings)) ≤ last_of start readings
    → ((position (loop_rounds advance readings (start, s)).1).0 ≡ s.target)
      × ((is_moving (loop_rounds advance readings (start, s)).1).0 ≡ false)
loop_rounds-arrives r m readings start s e a way enough =
    let (total, moved, not_ahead, not_behind) = loop_rounds-lag r readings start s e a in
    let arrived : (loop_rounds advance readings (start, s)).1 ≡ place s (times 1000 s.target) =
      moved
      ∙ advance-stepped r total s e
      ∙ ap (place s) (
          stepped_there (times 1000 s.target) s.position (pos (total * r))
            (covered _ m total r way (omega arith))) in
    rw (arrived, thousandth-times s.target) (refl, ground arith)
