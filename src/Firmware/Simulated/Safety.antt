-- ===== src/Firmware/Simulated/Safety.antt =====
-- The focuser of the firmware keeps the contract that a persona relies on, and its numbers fit.
use zwo_eaf_proxy.Base.{
  ℕ, ◌-◌, ◌*◌, ◌^◌, ◌<◌, ◌≡◌, refl, ap, ◌∙◌, arith, some, none, if◌then◌else◌, leb, inl, inr,
  Bool-cases, Bool-cases,
}
use zwo_eaf_proxy.Base.Int.{ℤ, pos, negsuc, ◌≤ℤ◌, ◌-ℤ◌}
use zwo_eaf_proxy.Focuser.{Contract}
use zwo_eaf_proxy.Firmware.Simulated.{
  SimulatedFocuser, advance, times, int32_product, construct, thousandth, simulated_focuser,
}
use zwo_eaf_proxy.Firmware.Simulated.Advance.{
  InBounds, place, advance-stepped, times_pos, stepped-InBounds,
}

-- Positions and targets of four bytes, a rate that is not negative, and a temperature of 32 bits, to which
-- the bias can be added.
pub record IsSafe (s : SimulatedFocuser) : Type 0 where
  pub position_low : pos 0 ≤ℤ s.position
  pub position_high : s.position ≤ℤ pos (1000 * (2 ^ 32 - 1))
  pub target_low : pos 0 ≤ℤ s.target
  pub target_high : s.target ≤ℤ pos (2 ^ 32 - 1)
  pub rate_low : pos 0 ≤ℤ s.rate
  pub rate_high : s.rate ≤ℤ pos (2 ^ 31 - 1)
  pub temperature_low : negsuc (2 ^ 31 - 1) ≤ℤ s.temperature_centi
  pub temperature_high : s.temperature_centi ≤ℤ pos (2 ^ 31 - 30001)

pub thousandth_range :
    (z : ℤ)
    → pos 0 ≤ℤ z
    → z ≤ℤ pos (1000 * (2 ^ 32 - 1))
    → (pos 0 ≤ℤ thousandth z) × (thousandth z ≤ℤ pos (2 ^ 32 - 1))
thousandth_range (pos n) h k = omega arith
thousandth_range (negsuc n) h k = absurd (omega arith)

milli_range :
    (z : ℤ)
    → pos 0 ≤ℤ z
    → z ≤ℤ pos (2 ^ 32 - 1)
    → (pos 0 ≤ℤ times 1000 z) × (times 1000 z ≤ℤ pos (1000 * (2 ^ 32 - 1)))
milli_range (pos n) h k = ground arith
milli_range (negsuc n) h k = absurd (omega arith)

abbrev placed-IsSafe :
    (s : SimulatedFocuser) (z : ℤ)
    → InBounds (pos 0) (pos (1000 * (2 ^ 32 - 1))) z
    → IsSafe s
    → IsSafe (place s z)
placed-IsSafe s z h k = record {
  position_low = h.0;
  position_high = h.1;
  target_low = k.target_low;
  target_high = k.target_high;
  rate_low = k.rate_low;
  rate_high = k.rate_high;
  temperature_low = k.temperature_low;
  temperature_high = k.temperature_high;
}

rate_number : (z : ℤ) → pos 0 ≤ℤ z → z ≤ℤ pos (2 ^ 31 - 1) → (r : ℕ) × (r < 2 ^ 31) × (z ≡ pos r)
rate_number (pos n) h k = (n, omega arith, refl)
rate_number (negsuc n) h k = absurd (omega arith)

-- A number that an `int64_t` holds
abbrev pub IsInt64 : ℤ → Type 0
IsInt64 = InBounds (negsuc (2 ^ 63 - 1)) (pos (2 ^ 63 - 1))

difference_fits :
    (a b : ℤ)
    → pos 0 ≤ℤ a
    → a ≤ℤ pos (1000 * (2 ^ 32 - 1))
    → pos 0 ≤ℤ b
    → b ≤ℤ pos (1000 * (2 ^ 32 - 1))
    → IsInt64 (a -ℤ b)
difference_fits (pos m) (pos n) h k i j = ground arith
difference_fits (pos m) (negsuc n) h k i j = absurd (omega arith)
difference_fits (negsuc m) b h k i j = absurd (omega arith)

product_fits : (a b : ℕ) → a < 2 ^ 31 → b < 2 ^ 31 → a * b < 2 ^ 62
product_fits a b h k = grind arith

step_fits : (a b : ℕ) → a < 2 ^ 31 → b < 2 ^ 31 → IsInt64 (times a (pos b))
step_fits a b h k = ground (arith, product_fits a b h k)

-- A safe focuser is safe after any advance of an elapsed time of 32 bits, and no 64-bit number of it
-- overflows: not the target in thousandths, nor what remains of the way, nor the step.
pub advance-IsSafe :
    (ms : ℕ) (s : SimulatedFocuser)
    → ms < 2 ^ 31
    → IsSafe s
    → IsSafe (advance ms s)
      × IsInt64 (times 1000 s.target)
      × IsInt64 (times 1000 s.target -ℤ s.position)
      × IsInt64 (times ms s.rate)
advance-IsSafe ms s h k =
    let (r, small, e) = rate_number s.rate k.rate_low k.rate_high in
    let t = milli_range s.target k.target_low k.target_high in
    (
      rw (advance-stepped r ms s e) (
          placed-IsSafe s _
            (stepped-InBounds (pos 0) (pos (1000 * (2 ^ 32 - 1))) (times 1000 s.target) s.position
              (ms * r) t (k.position_low, k.position_high))
            k),
      omega (arith, t),
      difference_fits _ s.position t.0 t.1 k.position_low k.position_high,
      rw e (step_fits ms r h small),
    )

-- The focuser of the firmware keeps the contract that a persona relies on.
pub move_to-IsSafe :
    (n : ℕ) (s : SimulatedFocuser)
    → n < 2 ^ 32
    → IsSafe s
    → IsSafe (simulated_focuser.move_to (pos n) s).1
move_to-IsSafe n s h k = ground arith

pub halt-IsSafe : (s : SimulatedFocuser) → IsSafe s → IsSafe (simulated_focuser.halt s).1
halt-IsSafe s k =
    let (lo, hi) = thousandth_range s.position k.position_low k.position_high in
    record {
      position_low = k.position_low;
      position_high = k.position_high;
      target_low = lo;
      target_high = hi;
      rate_low = k.rate_low;
      rate_high = k.rate_high;
      temperature_low = k.temperature_low;
      temperature_high = k.temperature_high;
    }

pub set_position-IsSafe :
    (n : ℕ) (s : SimulatedFocuser)
    → n < 2 ^ 32
    → IsSafe s
    → IsSafe (simulated_focuser.set_position (pos n) s).1
set_position-IsSafe n s h k = ground arith

abbrev pub contract : Contract simulated_focuser
contract = record {
  IsSafe = IsSafe;
  position_range = λ s k. thousandth_range s.position k.position_low k.position_high;
  position_safe = λ s k. k;
  move_to_safe = move_to-IsSafe;
  halt_safe = halt-IsSafe;
  set_position_safe = set_position-IsSafe;
  is_moving_safe = λ s k. k;
  temperature_safe = λ s k. k;
}

start_product :
    (n : ℕ)
    → int32_product (times 1000 (pos n)) ≡ (if leb n 2147483 then some (pos (1000 * n)) else none)
start_product n = ap int32_product (times_pos 1000 n) ∙ fits (1000 * n) ∙ ground arith
  where
    fits : (m : ℕ) → int32_product (pos m) ≡ (if leb m (2 ^ 31 - 1) then some (pos m) else none)
    fits m = ground arith

-- From a start that is not negative the constructor puts the focuser at rest there, if the start is at most
-- 2147483 steps, and overflows otherwise.
pub construct-start :
    (n : ℕ) (rate temperature_centi : ℤ)
    → construct (pos n) rate temperature_centi ≡ (
        if leb n 2147483
        then some (record {
          position = pos (1000 * n);
          target = pos n;
          rate = rate;
          temperature_centi = temperature_centi;
        })
        else none)
unfolding construct
construct-start n rate temperature_centi =
    rw (construct, start_product n)
      (elim (Bool-cases (leb n 2147483)) [ inl h ↦ rw h refl | inr h ↦ rw h refl ])
