-- ===== src/Focuser.antt =====
-- host/src/zwoproxy/focuser.py: what a persona asks of a focuser, whichever hardware is behind it.
use zwo_eaf_proxy.Base.{ℕ, ◌^◌, ◌-◌, ◌<◌, Bool}
use zwo_eaf_proxy.Base.Int.{ℤ, pos, negsuc, ◌≤ℤ◌}

-- `UNSUPPORTED = -(2**31)`
abbrev pub unsupported : ℤ
unsupported = negsuc (2 ^ 31 - 1)

-- The methods of `class Focuser(Protocol)`. Each may change the focuser's state, since a backend
-- reads its clock or its link.
pub record Focuser : Type 1 where
  pub State : Type 0
  pub begin : State → Bool × State
  pub position : State → ℤ × State
  pub move_to : ℤ → State → Bool × State
  pub halt : State → Bool × State
  pub set_position : ℤ → State → Bool × State
  pub is_moving : State → Bool × State
  pub max_step : State → ℤ × State
  pub temperature : State → ℤ × State
  pub tick : State → State

-- What a persona needs of a backend: in every state that it can be in, the step count fits the four
-- bytes of the wire, whatever targets of four bytes it is given.
pub record Contract (f : Focuser) : Type 1 where
  pub IsSafe : f.State → Type 0
  pub position_range :
      (s : f.State)
      → IsSafe s
      → (pos 0 ≤ℤ (f.position s).0) × ((f.position s).0 ≤ℤ pos (2 ^ 32 - 1))
  pub position_safe : (s : f.State) → IsSafe s → IsSafe (f.position s).1
  pub move_to_safe : (n : ℕ) (s : f.State) → n < 2 ^ 32 → IsSafe s → IsSafe (f.move_to (pos n) s).1
  pub halt_safe : (s : f.State) → IsSafe s → IsSafe (f.halt s).1
  pub set_position_safe :
      (n : ℕ) (s : f.State) → n < 2 ^ 32 → IsSafe s → IsSafe (f.set_position (pos n) s).1
  pub is_moving_safe : (s : f.State) → IsSafe s → IsSafe (f.is_moving s).1
  pub temperature_safe : (s : f.State) → IsSafe s → IsSafe (f.temperature s).1
