-- ===== src/Persona/Device/Safety.antt =====
-- The device answers every request, whatever bytes the host sends, on any backend that keeps the
-- contract of focuser.py.
use zwo_eaf_proxy.Base.{
  ℕ, ◌^◌, ◌<◌, ◌-◌, ◌≤◌, ◌≡◌, refl, ap, Bool, true, false, Option, none, some, List, [], ◌∷◌, arith,
  if◌then◌else◌, length, All, take, length-take, All-take,
}
use zwo_eaf_proxy.Base.Int.{ℤ, pos, negsuc, ◌≤ℤ◌}
use zwo_eaf_proxy.Base.Result.{Yields, Result, ok, err, ◌>>=◌}
use zwo_eaf_proxy.Base.Bytes.{Bytes, IsByte}
use zwo_eaf_proxy.Float.{Float}
use zwo_eaf_proxy.Focuser.{Focuser, Contract}
use zwo_eaf_proxy.Persona.Eaf.{Version}
use zwo_eaf_proxy.Persona.Protocol.{
  ValueError, Command, read_register, write_state, WriteState, parse_command, frame_reply,
  encode_state, MalformedReport,
}
use zwo_eaf_proxy.Persona.Protocol.Parse.{InRange, parse-InRange}
use zwo_eaf_proxy.Persona.Protocol.Encode.{
  IsBody, IsByteInt, Shows, encode_state-Shows, frame_reply_lem, identity_body-IsBody,
  serial_body-IsBody, zero_body-IsBody,
}
use zwo_eaf_proxy.Persona.Device.{
  Device, Answer, ack, reply, Request, set_report, get_report, apply, apply_parsed, state_body,
  reply_body, current_reply, handle_set_report, handle_get_report, handle, serve, post_init,
  stored_settings,
}
use Prim.Native.Nat.{min}

-- A body that can be framed is answered by a report of sixteen bytes.
frame_reply-IsBody :
    (register : ℕ) (r : Result ValueError Bytes)
    → register < 256
    → Yields IsBody r
    → Yields (λ b. (length b ≡ 16) × All IsByte b) (r >>= frame_reply register)
frame_reply-IsBody register (err e) g h = absurd h
frame_reply-IsBody register (ok b) g h =
    rw (frame_reply_lem register b h.0).0
      (omega arith, (omega arith, (omega arith, (omega arith, (g, h.1)))))

-- The answer that a request calls for.
abbrev pub Answers : Request → Result ValueError Answer → Type 0
Answers (set_report r) a = a ≡ ok ack
Answers (get_report n) (ok (reply b)) = (length b ≡ min n 16) × All IsByte b
Answers (get_report n) (ok ack) = ⊥
Answers (get_report n) (err e) = ⊥

-- Request by request.
abbrev pub AllAnswered : List Request → List (Result ValueError Answer) → Type 0
AllAnswered [] [] = Unit
AllAnswered [] (a ∷ as') = ⊥
AllAnswered (q ∷ qs) [] = ⊥
AllAnswered (q ∷ qs) (a ∷ as') = Answers q a × AllAnswered qs as'

-- The data of a request are bytes.
abbrev pub IsWire : Request → Type 0
IsWire (set_report r) = All IsByte r
IsWire (get_report n) = Unit

cut-Answers :
    (n : ℕ) (r : Result ValueError Bytes)
    → Yields (λ b. (length b ≡ 16) × All IsByte b) r
    → Answers (get_report n) (r >>= (λ b. ok (reply (take n b))))
cut-Answers n (err e) h = absurd h
cut-Answers n (ok b) h = (omega (arith, length-take n b), All-take IsByte n b h.1)

encode_state-IsBody :
    (f : Float) (moving : Bool) (z : ℤ) (celsius : f.F) (settings : ℕ)
    → pos 0 ≤ℤ z
    → z ≤ℤ pos (2 ^ 32 - 1)
    → Yields IsBody (encode_state f moving z celsius settings)
encode_state-IsBody f moving (negsuc n) celsius settings lo hi = absurd (omega arith)
encode_state-IsBody f moving (pos n) celsius settings lo hi =
    shown (encode_state f moving (pos n) celsius settings)
      (encode_state-Shows f moving n celsius settings (omega arith))
  where
    shown :
        (r : Result ValueError Bytes)
        → Yields (Shows f moving n celsius settings) r
        → Yields IsBody r
    shown (ok b) s = (s.size, s.bytes)
    shown (err e) s = s

module _ (f : Float) (o : Focuser) (c : Contract o) where
  open c use {
    IsSafe, position_range, position_safe, move_to_safe, halt_safe, set_position_safe,
    is_moving_safe, temperature_safe,
  }

  -- The configuration can be encoded, and the backend is in a state that it may be in.
  pub record IsReady (d : Device f o) : Type 0 where
    pub register_byte : d.pending < 256
    pub settings_byte : d.settings < 256
    pub serial_size : length d.serial ≤ 12
    pub serial_bytes : All IsByte d.serial
    pub major : IsByteInt d.firmware_version.0
    pub minor : IsByteInt d.firmware_version.1
    pub patch : IsByteInt d.firmware_version.2
    pub focuser_safe : IsSafe d.focuser

  target-IsSafe :
      (w : WriteState) (s : o.State)
      → w.position < 2 ^ 32
      → IsSafe s
      → (go sync : Bool)
      → IsSafe (
          if go
          then (o.move_to (pos w.position) s).1
          else if sync
          then (o.set_position (pos w.position) s).1
          else (o.halt s).1)
  target-IsSafe w s h k true sync = move_to_safe w.position s h k
  target-IsSafe w s h k false true = set_position_safe w.position s h k
  target-IsSafe w s h k false false = halt_safe s k

  stored-lt :
      (n : Option ℕ) (old : ℕ)
      → ((s : ℕ) → n ≡ some s → s < 256)
      → old < 256
      → stored_settings n old < 256
  unfolding stored_settings
  stored-lt none old h k = k
  stored-lt (some s) old h k = ground (arith, h s refl)

  apply-IsReady : (k : Command) (d : Device f o) → InRange k → IsReady d → IsReady (apply f o k d)
  unfolding apply
  apply-IsReady (read_register g) d h r = record {
    register_byte = h;
    settings_byte = r.settings_byte;
    serial_size = r.serial_size;
    serial_bytes = r.serial_bytes;
    major = r.major;
    minor = r.minor;
    patch = r.patch;
    focuser_safe = r.focuser_safe;
  }
  apply-IsReady (write_state w) d h r = record {
    register_byte = omega arith;
    settings_byte = stored-lt w.settings d.settings h.1 r.settings_byte;
    serial_size = r.serial_size;
    serial_bytes = r.serial_bytes;
    major = r.major;
    minor = r.minor;
    patch = r.patch;
    focuser_safe = target-IsSafe w d.focuser h.0 r.focuser_safe w.go w.sync;
  }

  state_body-IsReady : (d : Device f o) → IsReady d → IsReady (state_body f o d).1
  unfolding state_body
  state_body-IsReady d r = record {
    register_byte = r.register_byte;
    settings_byte = r.settings_byte;
    serial_size = r.serial_size;
    serial_bytes = r.serial_bytes;
    major = r.major;
    minor = r.minor;
    patch = r.patch;
    focuser_safe = position_safe _ (is_moving_safe _ (temperature_safe d.focuser r.focuser_safe));
  }

  state_body-IsBody : (d : Device f o) → IsReady d → Yields IsBody (state_body f o d).0
  unfolding state_body
  state_body-IsBody d r =
      let (lo, hi) =
        position_range _ (is_moving_safe _ (temperature_safe d.focuser r.focuser_safe)) in
      encode_state-IsBody f _ _ _ d.settings lo hi

  pub reply_body-IsBody :
      (d : Device f o)
      → IsReady d
      → Yields IsBody (reply_body f o d).0 × IsReady (reply_body f o d).1
  unfolding reply_body
  reply_body-IsBody d r = ground (
    arith,
    state_body-IsBody d r,
    state_body-IsReady d r,
    identity_body-IsBody d.firmware_version r.major r.minor r.patch,
    serial_body-IsBody d.serial r.serial_bytes r.serial_size,
    zero_body-IsBody,
  )

  pub current_reply-IsBody :
      (d : Device f o)
      → IsReady d
      → Yields (λ b. (length b ≡ 16) × All IsByte b) (current_reply f o d).0
        × IsReady (current_reply f o d).1
  unfolding current_reply
  current_reply-IsBody d r =
      let (body, ready) = reply_body-IsBody d r in
      (frame_reply-IsBody d.pending _ r.register_byte body, ready)

  handle_set_report-IsReady :
      (b : Bytes) (d : Device f o)
      → All IsByte b
      → IsReady d
      → ((handle_set_report f o b d).0 ≡ ack) × IsReady (handle_set_report f o b d).1
  unfolding handle_set_report
  handle_set_report-IsReady b d h r = parsed (parse_command b) (λ k e. parse-InRange b k h e)
    where
      parsed :
          (p : Result MalformedReport Command)
          → ((k : Command) → p ≡ ok k → InRange k)
          → ((apply_parsed f o p d).0 ≡ ack) × IsReady (apply_parsed f o p d).1
      parsed (err e) range = (refl, r)
      parsed (ok k) range = (refl, apply-IsReady k d (range k refl) r)

  -- Every request is answered as it should be, and the device stays ready.
  pub handle-Answers :
      (q : Request) (d : Device f o)
      → IsWire q
      → IsReady d
      → Answers q (handle f o q d).0 × IsReady (handle f o q d).1
  unfolding handle handle_get_report
  handle-Answers (set_report b) d h r =
      let (e, ready) = handle_set_report-IsReady b d h r in (ap ok e, ready)
  handle-Answers (get_report n) d h r =
      let (e, ready) = current_reply-IsBody d r in (cut-Answers n _ e, ready)

  -- Whatever bytes the host sends, in whatever order: every SET_REPORT is acknowledged, every
  -- GET_REPORT is answered by bytes, as many as it asked for and at most sixteen, no request
  -- raises, and the device is ready for the next.
  pub serve-Answers :
      (qs : List Request) (d : Device f o)
      → All IsWire qs
      → IsReady d
      → AllAnswered qs (serve f o qs d).0 × IsReady (serve f o qs d).1
  unfolding serve
  serve-Answers [] d h r = (tt, r)
  serve-Answers (q ∷ qs) d h r =
      let (e, ready) = handle-Answers q d h.0 r in
      let (es, ready') = serve-Answers qs (handle f o q d).1 h.1 ready in ((e, es), ready')

  pub post_init-IsReady :
      (s : o.State) (serial : Bytes) (celsius : f.F) (v : Version)
      → IsSafe s
      → All IsByte serial
      → length serial ≤ 12
      → IsByteInt v.0
      → IsByteInt v.1
      → IsByteInt v.2
      → IsReady (post_init f o s serial celsius v)
  unfolding post_init
  post_init-IsReady s serial celsius v safe b n h k l = record {
    register_byte = omega arith;
    settings_byte = omega arith;
    serial_size = n;
    serial_bytes = b;
    major = h;
    minor = k;
    patch = l;
    focuser_safe = safe;
  }
