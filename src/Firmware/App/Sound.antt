-- ===== src/Firmware/App/Sound.antt =====
-- What stays true of the persona of the firmware: its focuser is safe and its bytes are bytes, behind
-- every report and every round of the loop.
use zwo_eaf_proxy.Base.{
  ℕ, ◌-◌, ◌^◌, ◌%◌, ◌≤◌, ◌<◌, ◌≡◌, refl, Bool, true, false, Option, none, some, [], ◌∷◌, arith, All,
  All-take, take, take_all, if◌then◌else◌, ◌==◌, ltb, Bool-cases, inl, inr, ltb-false,
}
use zwo_eaf_proxy.Base.Int.{pos, negsuc, pos_part, eqb_ℤ, ltb_ℤ}
use zwo_eaf_proxy.Base.Result.{Result, ok, err}
use zwo_eaf_proxy.Base.Bytes.{Bytes, IsByte}
use zwo_eaf_proxy.Persona.Protocol as Host
use zwo_eaf_proxy.Persona.Protocol.{read_register, write_state}
use zwo_eaf_proxy.Persona.Protocol.Encode.{IsBody}
use zwo_eaf_proxy.Persona.Protocol.Parse.{InRange, parse-InRange}
use zwo_eaf_proxy.Firmware.Protocol.{frame_reply, encode_state, encode_identity}
use zwo_eaf_proxy.Firmware.Protocol.Agree.{as_firmware, settings_field, parse_command-agrees}
use zwo_eaf_proxy.Firmware.Persona.{
  EafPersona, int32, apply_command, state_reply_body, switch_pending, firmware_reply, set_report_cb,
  get_report_cb,
}
use zwo_eaf_proxy.Firmware.Simulated.{SimulatedFocuser, advance, simulated_focuser}
use zwo_eaf_proxy.Firmware.Simulated.Safety.{
  IsSafe, advance-IsSafe, move_to-IsSafe, halt-IsSafe, set_position-IsSafe,
}
use zwo_eaf_proxy.Firmware.Main.{loop_round, elapsed_ms}

-- A persona with a safe focuser, whose bytes are bytes
pub record IsSound (p : EafPersona simulated_focuser) : Type 0 where
  pub focuser : IsSafe p.focuser
  pub register : p.pending < 256
  pub settings : p.settings < 256
  pub serial : IsBody p.serial
  pub version : All IsByte (p.version.0 ∷ p.version.1 ∷ p.version.2 ∷ [])

below_zero : (m : ℕ) → ltb_ℤ (negsuc m) (pos 0) ≡ true
below_zero m = ground arith

-- A position of 2^31 or more is a negative `int32_t`, which the focuser refuses.
move_to_int32 :
    (n : ℕ) (s : SimulatedFocuser)
    → n < 2 ^ 32
    → IsSafe s
    → IsSafe (simulated_focuser.move_to (int32 n) s).1
move_to_int32 n s h k = elim (Bool-cases (ltb n (2 ^ 31))) [
  | inl small ↦ rw small (move_to-IsSafe n s h k)
  | inr large ↦ rw (large, below_zero (2 ^ 32 - 1 - n)) k
]

set_position_int32 :
    (n : ℕ) (s : SimulatedFocuser)
    → n < 2 ^ 32
    → IsSafe s
    → IsSafe (simulated_focuser.set_position (int32 n) s).1
set_position_int32 n s h k = elim (Bool-cases (ltb n (2 ^ 31))) [
  | inl small ↦ rw small (set_position-IsSafe n s h k)
  | inr large ↦ rw (large, below_zero (2 ^ 32 - 1 - n)) k
]

moved-IsSafe :
    (go sync : Bool) (n : ℕ) (s : SimulatedFocuser)
    → n < 2 ^ 32
    → IsSafe s
    → IsSafe (
        if go
        then (simulated_focuser.move_to (int32 n) s).1
        else if sync
        then (simulated_focuser.set_position (int32 n) s).1
        else (simulated_focuser.halt s).1)
moved-IsSafe true sync n s h k = move_to_int32 n s h k
moved-IsSafe false true n s h k = set_position_int32 n s h k
moved-IsSafe false false n s h k = halt-IsSafe s k

apply-IsSound :
    (r : Result Host.MalformedReport Host.Command) (p : EafPersona simulated_focuser)
    → ((k : Host.Command) → r ≡ ok k → InRange k)
    → IsSound p
    → IsSound (apply_command simulated_focuser (as_firmware r) p)
unfolding apply_command
apply-IsSound (err e) p range s = s
apply-IsSound (ok (read_register g)) p range s = record {
  focuser = s.focuser;
  register = range _ refl;
  settings = s.settings;
  serial = s.serial;
  version = s.version;
}
apply-IsSound (ok (write_state w)) p range s = record {
  focuser = moved-IsSafe w.go w.sync w.position p.focuser (range _ refl).0 s.focuser;
  register = omega arith;
  settings = stored w.settings;
  serial = s.serial;
  version = s.version;
}
  where
    stored :
        (n : Option ℕ)
        → (if eqb_ℤ (settings_field n) (negsuc 0)
            then p.settings
            else pos_part (settings_field n) % 256)
          < 256
    stored none = s.settings
    stored (some m) = ground arith

pub set-IsSound :
    (report_id : ℕ) (buffer : Bytes) (p : EafPersona simulated_focuser)
    → All IsByte (report_id ∷ buffer)
    → IsSound p
    → IsSound (set_report_cb simulated_focuser report_id buffer p)
unfolding set_report_cb
set-IsSound report_id buffer p h s = rw (parse_command-agrees (report_id ∷ take 15 buffer)) (
    apply-IsSound (Host.parse_command (report_id ∷ take 15 buffer)) p
      (λ k e. parse-InRange (report_id ∷ take 15 buffer) k (h.0, All-take IsByte 15 buffer h.1) e)
      s)

-- The four bodies
state_reply-IsSound :
    (p : EafPersona simulated_focuser)
    → IsSound p
    → IsBody (state_reply_body simulated_focuser p).0
      × IsSound (state_reply_body simulated_focuser p).1
unfolding state_reply_body encode_state
state_reply-IsSound p s = (ground arith, s)

identity-IsBody : (a b c : ℕ) → All IsByte (a ∷ b ∷ c ∷ []) → IsBody (encode_identity a b c)
unfolding encode_identity
identity-IsBody a b c h = omega arith

one_of :
    {A : Type 0} (P : A → Type 0) (a b c : Bool) (w x y z : A)
    → P w
    → P x
    → P y
    → P z
    → P (if a then w else if b then x else if c then y else z)
one_of P true b c w x y z hw hx hy hz = hw
one_of P false true c w x y z hw hx hy hz = hx
one_of P false false true w x y z hw hx hy hz = hy
one_of P false false false w x y z hw hx hy hz = hz

-- A body, with the persona that is left
abbrev pub Sound : Bytes × EafPersona simulated_focuser → Type 0
Sound t = IsBody t.0 × IsSound t.1

pub switch_pending-IsSound :
    (p : EafPersona simulated_focuser) → IsSound p → Sound (switch_pending simulated_focuser p)
unfolding switch_pending
switch_pending-IsSound p s =
    one_of Sound (p.pending == 3) (p.pending == 4) (p.pending == 12) _ _ _ _
      (state_reply-IsSound p s) (identity-IsBody p.version.0 p.version.1 p.version.2 s.version, s)
      (rw (take_all 12 p.serial (omega (arith, s.serial))) s.serial, s) (omega arith, s)

-- What a GET_REPORT with room for a report is answered
pub get_report_cb-answer :
    (reqlen : ℕ) (p : EafPersona simulated_focuser)
    → 16 ≤ reqlen
    → IsSound p
    → (get_report_cb simulated_focuser reqlen p).0
      ≡ some (0x7e ∷ 0x5a ∷ p.pending ∷ (switch_pending simulated_focuser p).0)
unfolding get_report_cb firmware_reply frame_reply
get_report_cb-answer reqlen p h s =
    let size = (switch_pending-IsSound p s).0.0 in
    rw
      (
        ltb-false reqlen 16 h,
        take_all 12 (switch_pending simulated_focuser p).0 (omega (arith, size)),
      )
      (rw (take_all 12 (switch_pending simulated_focuser p).0 (omega (arith, size))) refl)

elapsed_small : (now last : ℕ) → pos_part (elapsed_ms now last) < 2 ^ 31
elapsed_small now last = ground arith

pub timer-IsSafe :
    (now last : ℕ) (s : SimulatedFocuser) → IsSafe s → IsSafe (loop_round advance now (last, s)).1
unfolding loop_round
timer-IsSafe now last s h = elim (Bool-cases (ltb_ℤ (pos 0) (elapsed_ms now last))) [
  | inl some_time ↦
      rw some_time (advance-IsSafe (pos_part (elapsed_ms now last)) s (elapsed_small now last) h).0
  | inr none_yet ↦ rw none_yet h
]
