-- ===== src/Persona/Device.antt =====
-- host/src/zwoproxy/personas/eaf_device.py: the device's protocol state and its request handlers.
-- Facedancer delivers the requests: a SET_REPORT with its data, a GET_REPORT with its length.
pub mod Safety
pub mod Registers
pub mod Session
mod Declared
use zwo_eaf_proxy.Base.{ℕ, Bool, not, Option, none, some, List, [], ◌∷◌, ◌==◌, if◌then◌else◌, take}
use zwo_eaf_proxy.Base.Int.{ℤ, pos, eqb_ℤ}
use zwo_eaf_proxy.Base.Result.{Result, ok, err, ◌>>=◌}
use zwo_eaf_proxy.Base.Bytes.{Bytes}
use zwo_eaf_proxy.Float.{Float}
use zwo_eaf_proxy.Focuser.{Focuser, unsupported}
use zwo_eaf_proxy.Persona.Eaf
use zwo_eaf_proxy.Persona.Eaf.{Version}
use zwo_eaf_proxy.Persona.Protocol.{
  ValueError, MalformedReport, Command, read_register, write_state, parse_command, encode_state,
  identity_body, serial_body, zero_body, frame_reply, settings_base,
}

-- The attributes of an `EAFDevice`. `settings` is byte 9 of the state block.
pub record Device (f : Float) (o : Focuser) : Type 0 where
  pub focuser : o.State
  pub pending : ℕ
  pub settings : ℕ
  pub serial : Bytes
  pub fallback_celsius : f.F
  pub firmware_version : Version

-- What a handler does with the request: it acknowledges it, or replies with bytes.
pub data Answer : Type 0 where
  ack : Answer
  reply : Bytes → Answer

-- A control request on the interface.
pub data Request : Type 0 where
  set_report : Bytes → Request
  get_report : ℕ → Request

-- `command.settings is not None and command.settings != self._settings`
unfoldable pub stored_settings : Option ℕ → ℕ → ℕ
stored_settings none old = old
stored_settings (some new) old = if not (new == old) then new else old

-- `self.fallback_celsius if centi == UNSUPPORTED else centi / 100`
unfoldable pub reported_celsius : (f : Float) → f.F → ℤ → f.F
reported_celsius f fallback centi =
    if eqb_ℤ centi unsupported then fallback else f.div (f.of_int centi) (f.of_int (pos 100))

module _ (f : Float) (o : Focuser) where
  -- `__post_init__`
  unfoldable pub post_init : o.State → Bytes → f.F → Version → Device f o
  post_init focuser serial celsius version = record {
    focuser = focuser;
    pending = Eaf.Register.state;
    settings = settings_base;
    serial = serial;
    fallback_celsius = celsius;
    firmware_version = version;
  }

  unfoldable pub apply : Command → Device f o → Device f o
  apply (read_register register) d = record d { pending = register }
  apply (write_state w) d = record d {
    pending = Eaf.Register.state;
    settings = stored_settings w.settings d.settings;
    focuser =
        if w.go
        then (o.move_to (pos w.position) d.focuser).1
        else if w.sync
        then (o.set_position (pos w.position) d.focuser).1
        else (o.halt d.focuser).1;
  }

  -- The state block asks the focuser three questions, in this order.
  unfoldable pub state_body : Device f o → Result ValueError Bytes × Device f o
  state_body d =
      let (centi, s) = o.temperature d.focuser in
      let (moving, s') = o.is_moving s in
      let (position, s'') = o.position s' in
      (
        encode_state f moving position (reported_celsius f d.fallback_celsius centi) d.settings,
        record d { focuser = s'' },
      )

  unfoldable pub reply_body : Device f o → Result ValueError Bytes × Device f o
  reply_body d =
      if d.pending == Eaf.Register.state
      then state_body d
      else if d.pending == Eaf.Register.identity
      then (identity_body d.firmware_version, d)
      else if d.pending == Eaf.Register.serial
      then (serial_body d.serial, d)
      else (ok zero_body, d)

  unfoldable pub current_reply : Device f o → Result ValueError Bytes × Device f o
  current_reply d = let (body, d') = reply_body d in (body >>= frame_reply d.pending, d')

  -- The `except` clause acknowledges a malformed report and returns.
  abbrev pub apply_parsed : Result MalformedReport Command → Device f o → Answer × Device f o
  apply_parsed (err malformed) d = (ack, d)
  apply_parsed (ok command) d = (ack, apply command d)

  unfoldable pub handle_set_report : Bytes → Device f o → Answer × Device f o
  handle_set_report report d = apply_parsed (parse_command report) d

  unfoldable pub handle_get_report : ℕ → Device f o → Result ValueError Answer × Device f o
  handle_get_report n d =
      let (r, d') = current_reply d in (r >>= (λ bytes. ok (reply (take n bytes))), d')

  -- One request; an exception of the handler is its result.
  unfoldable pub handle : Request → Device f o → Result ValueError Answer × Device f o
  handle (set_report report) d = let (a, d') = handle_set_report report d in (ok a, d')
  handle (get_report n) d = handle_get_report n d

  -- The requests of a session, one after the other.
  unfoldable pub serve : List Request → Device f o → List (Result ValueError Answer) × Device f o
  serve [] d = ([], d)
  serve (q ∷ qs) d = let (a, d') = handle q d in let (rest, d'') = serve qs d' in (a ∷ rest, d'')
