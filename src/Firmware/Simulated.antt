-- ===== src/Firmware/Simulated.antt =====
-- firmware/main/include/backends/simulated_focuser.h and its .cpp: the focuser in memory of the firmware.
-- The position is in thousandths of a step, an `int64_t`.
pub mod Motion
pub mod Advance
pub mod Safety
pub mod Start
use zwo_eaf_proxy.Base.{
  ℕ, ◌-◌, ◌*◌, ◌/◌, ◌^◌, suc, Bool, true, false, not, ◌&&◌, Option, none, some, if◌then◌else◌,
}
use zwo_eaf_proxy.Base.Int.{
  ℤ, pos, negsuc, ◌+ℤ◌, ◌-ℤ◌, ltb_ℤ, leb_ℤ, eqb_ℤ, sub_ℕ, pos_part, neg_part,
}
use zwo_eaf_proxy.Focuser.{Focuser}

-- The members of a `SimulatedFocuser`
pub record SimulatedFocuser : Type 0 where
  pub position : ℤ
  pub target : ℤ
  pub rate : ℤ
  pub temperature_centi : ℤ

-- C++'s division cuts the fraction off.
abbrev pub thousandth : ℤ → ℤ
thousandth (pos n) = pos (n / 1000)
thousandth (negsuc n) = sub_ℕ 0 (suc n / 1000)

abbrev pub times : ℕ → ℤ → ℤ
times k z = sub_ℕ (k * pos_part z) (k * neg_part z)

-- A product of two `int32_t`, which is undefined where it overflows
abbrev pub int32_product : ℤ → Option ℤ
int32_product z =
    if leb_ℤ (negsuc (2 ^ 31 - 1)) z && leb_ℤ z (pos (2 ^ 31 - 1)) then some z else none

-- The constructor: `position * 1000` is computed as an `int32_t`; `none` is undefined behaviour.
unfoldable pub construct : ℤ → ℤ → ℤ → Option SimulatedFocuser
construct position steps_per_second temperature_centi = elim (int32_product (times 1000 position)) [
  | none ↦ none
  | some milli ↦ some (record {
    position = milli;
    target = position;
    rate = steps_per_second;
    temperature_centi = temperature_centi;
  })
]

abbrev pub begin : SimulatedFocuser → Bool × SimulatedFocuser
begin s = (true, s)

abbrev pub position : SimulatedFocuser → ℤ × SimulatedFocuser
position s = (thousandth s.position, s)

abbrev pub move_to : ℤ → SimulatedFocuser → Bool × SimulatedFocuser
move_to target s = if ltb_ℤ target (pos 0) then (false, s) else (true, record s { target = target })

abbrev pub halt : SimulatedFocuser → Bool × SimulatedFocuser
halt s = (true, record s { target = thousandth s.position })

abbrev pub set_position : ℤ → SimulatedFocuser → Bool × SimulatedFocuser
set_position n s =
    if ltb_ℤ n (pos 0) then (false, s) else (true, record s { position = times 1000 n; target = n })

abbrev pub is_moving : SimulatedFocuser → Bool × SimulatedFocuser
is_moving s = (not (eqb_ℤ (thousandth s.position) s.target), s)

abbrev pub max_step : SimulatedFocuser → ℤ × SimulatedFocuser
max_step s = (pos 0x7FFFFFFF, s)

abbrev pub temperature : SimulatedFocuser → ℤ × SimulatedFocuser
temperature s = (s.temperature_centi, s)

-- `rate * elapsed_ms`, of an elapsed time that is not negative
abbrev pub step_of : SimulatedFocuser → ℕ → ℤ
step_of s elapsed_ms = times elapsed_ms s.rate

-- `remaining < 0 ? -remaining : remaining`
abbrev pub magnitude : ℤ → ℤ
magnitude z = if ltb_ℤ z (pos 0) then pos 0 -ℤ z else z

-- `advance`
unfoldable pub advance : ℕ → SimulatedFocuser → SimulatedFocuser
advance elapsed_ms s =
    let target_milli = times 1000 s.target in
    let remaining = target_milli -ℤ s.position in
    let step = step_of s elapsed_ms in
    if eqb_ℤ remaining (pos 0)
    then s
    else if leb_ℤ (magnitude remaining) step
    then record s { position = target_milli }
    else record s {
      position =
          if ltb_ℤ (pos 0) remaining then s.position +ℤ step else s.position +ℤ (pos 0 -ℤ step);
    }

-- The class as a `Focuser`; `tick` does nothing.
abbrev pub simulated_focuser : Focuser
simulated_focuser = record {
  State = SimulatedFocuser;
  begin = begin;
  position = position;
  move_to = move_to;
  halt = halt;
  set_position = set_position;
  is_moving = is_moving;
  max_step = max_step;
  temperature = temperature;
  tick = λ s. s;
}
