-- ===== src/Firmware/Persona.antt =====
-- firmware/main/personas/eaf_persona.cpp, and the two callbacks of firmware/main/main.cpp with which
-- TinyUSB delivers the requests of the host: it takes the report ID off a SET_REPORT and puts it in front
-- of the answer to a GET_REPORT.
pub mod Agree
pub mod Replies
pub mod Session
use zwo_eaf_proxy.Base.{
  ℕ, suc, ◌-◌, ◌^◌, ◌%◌, Bool, Option, none, some, List, [], ◌∷◌, ltb, ◌==◌, if◌then◌else◌, take,
  drop, replicate,
}
use zwo_eaf_proxy.Base.Int.{ℤ, pos, negsuc, pos_part, eqb_ℤ}
use zwo_eaf_proxy.Base.Bytes.{Bytes}
use zwo_eaf_proxy.Focuser.{Focuser, unsupported}
use zwo_eaf_proxy.Firmware.Protocol.{
  CommandKind, k_malformed, k_read_register, k_write_state, Command, parse_command, frame_reply,
  encode_state, encode_identity, k_settings_absent, k_settings_base, k_state, k_identity, k_serial,
  k_body_size, k_report_size,
}

-- `static_cast<int32_t>` of a `uint32_t`, and back
abbrev pub int32 : ℕ → ℤ
int32 n = if ltb n (2 ^ 31) then pos n else negsuc (2 ^ 32 - 1 - n)

abbrev pub uint32 : ℤ → ℕ
uint32 (pos n) = n % 2 ^ 32
uint32 (negsuc n) = 2 ^ 32 - 1 - n % 2 ^ 32

-- The members of an `EafPersona`, and the focuser that it refers to. `serial_` has `kBodySize` bytes.
pub record EafPersona (o : Focuser) : Type 0 where
  pub focuser : o.State
  pub serial : Bytes
  pub fallback_temperature_centi : ℤ
  pub version : ℕ × ℕ × ℕ
  pub pending : ℕ
  pub settings : ℕ

-- A request as TinyUSB delivers it: a SET_REPORT with the report ID and what follows, and a GET_REPORT
-- with the room that is left behind the ID; both of feature reports.
pub data FeatureRequest : Type 0 where
  set_feature : ℕ → Bytes → FeatureRequest
  get_feature : ℕ → FeatureRequest

module _ (o : Focuser) where
  -- The constructor
  unfoldable pub construct : o.State → Bytes → ℤ → ℕ × ℕ × ℕ → EafPersona o
  construct focuser serial fallback version = record {
    focuser = focuser;
    serial = take k_body_size serial;
    fallback_temperature_centi = fallback;
    version = version;
    pending = k_state;
    settings = k_settings_base;
  }

  -- `Apply`
  unfoldable pub apply_command : Command → EafPersona o → EafPersona o
  apply_command command p = elim command.kind [
    | k_read_register ↦ record p { pending = command.reg }
    | k_write_state ↦ record p {
      pending = k_state;
      settings =
          if eqb_ℤ command.settings k_settings_absent
          then p.settings
          else pos_part command.settings % 256;
      focuser =
          if command.go
          then (o.move_to (int32 command.position) p.focuser).1
          else if command.sync
          then (o.set_position (int32 command.position) p.focuser).1
          else (o.halt p.focuser).1;
    }
    | k_malformed ↦ p
  ]

  -- The case of `kState`. C++ leaves open which argument of `EncodeState` is computed first; this is the
  -- order in which they are written.
  unfoldable pub state_reply_body : EafPersona o → Bytes × EafPersona o
  state_reply_body p =
      let (answer, s) = o.temperature p.focuser in
      let centi = if eqb_ℤ answer unsupported then p.fallback_temperature_centi else answer in
      let (moving, s') = o.is_moving s in
      let (position, s'') = o.position s' in
      (encode_state moving (uint32 position) centi p.settings, record p { focuser = s'' })

  unfoldable pub switch_pending : EafPersona o → Bytes × EafPersona o
  switch_pending p =
      if p.pending == k_state
      then state_reply_body p
      else if p.pending == k_identity
      then (encode_identity p.version.0 p.version.1 p.version.2, p)
      else if p.pending == k_serial
      then (take k_body_size p.serial, p)
      else (replicate k_body_size 0, p)

  -- `CurrentReply`
  unfoldable pub firmware_reply : ℕ → EafPersona o → Option Bytes × EafPersona o
  firmware_reply out_size p =
      let (body, p') = switch_pending p in (frame_reply p.pending body out_size, p')

  -- `tud_hid_set_report_cb` of a feature report
  unfoldable pub set_report_cb : ℕ → Bytes → EafPersona o → EafPersona o
  set_report_cb report_id buffer p =
      apply_command (parse_command (report_id ∷ take (k_report_size - 1) buffer)) p

  -- `tud_hid_get_report_cb` of a feature report: what it writes, or nothing where it returns 0
  abbrev pub payload : Option Bytes → Option Bytes
  payload none = none
  payload (some staged) = some (take (k_report_size - 1) (drop 1 staged))

  unfoldable pub get_report_cb : ℕ → EafPersona o → Option Bytes × EafPersona o
  get_report_cb reqlen p =
      if ltb reqlen k_report_size
      then (none, p)
      else (let (staged, p') = firmware_reply k_report_size p in (payload staged, p'))

  unfoldable pub deliver : FeatureRequest → EafPersona o → Option Bytes × EafPersona o
  deliver (set_feature report_id buffer) p = (none, set_report_cb report_id buffer p)
  deliver (get_feature reqlen) p = get_report_cb reqlen p

  -- The requests of a session, one after the other.
  unfoldable pub firmware_serve :
      List FeatureRequest → EafPersona o → List (Option Bytes) × EafPersona o
  firmware_serve [] p = ([], p)
  firmware_serve (q ∷ qs) p =
      let (a, p') = deliver q p in let (rest, p'') = firmware_serve qs p' in (a ∷ rest, p'')
