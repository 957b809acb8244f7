-- ===== src/Firmware/Persona/Replies.antt =====
-- The persona of the firmware replies to the host as the Python device does, and a whole session with
-- it runs the same.
use zwo_eaf_proxy.Base.{
  ℕ, suc, ◌-◌, ◌^◌, ◌%◌, ◌≤◌, ◌<◌, ◌≡◌, refl, sym, ap, Bool, Option, none, some, ◌∷◌, arith, length,
  take, take_all, drop, replicate, if◌then◌else◌, Bool-cases, inl, inr, ltb-false, length-append,
  length-replicate,
}
use zwo_eaf_proxy.Base.Int.{ℤ, pos, negsuc, ◌+ℤ◌, ◌≤ℤ◌, eqb_ℤ}
use zwo_eaf_proxy.Base.Result.{Result, ok, err, ◌>>=◌}
use zwo_eaf_proxy.Base.Bytes.{Bytes, ljust}
use zwo_eaf_proxy.Float.{Float, IsFloat}
use zwo_eaf_proxy.Focuser.{Focuser, Contract, unsupported}
use zwo_eaf_proxy.Persona.Protocol as Host
use zwo_eaf_proxy.Persona.Protocol.{
  WriteState, read_register, write_state, clamp_u16, encode_temperature,
}
use zwo_eaf_proxy.Persona.Protocol.Encode.{encode_hundredths, IsBody, IsByteInt}
use zwo_eaf_proxy.Persona.Device.{
  Device, Answer, ack, reply, get_report, state_body, reply_body, current_reply, handle_get_report,
  handle, reported_celsius,
}
use zwo_eaf_proxy.Persona.Device.Safety.{IsReady, reply_body-IsBody}
use zwo_eaf_proxy.Firmware.Protocol.{frame_reply, encode_state, encode_identity}
use zwo_eaf_proxy.Firmware.Protocol.Agree.{
  encode_state-agrees, encode_identity-agrees, frame_reply-agrees,
}
use zwo_eaf_proxy.Firmware.Persona.{
  uint32, state_reply_body, switch_pending, firmware_reply, payload, get_report_cb,
}
use zwo_eaf_proxy.Firmware.Persona.Agree.{mirror}

module _ (f : Float) (laws : IsFloat f) (o : Focuser) (c : Contract o) where
  -- The backend answers with an `int32_t`, in hundredths of a degree, to which the bias can be added.
  abbrev pub Measures : Type 0
  Measures =
      (s : o.State)
      → c.IsSafe s
      → (negsuc (2 ^ 31 - 1) ≤ℤ (o.temperature s).0) × ((o.temperature s).0 ≤ℤ pos (2 ^ 31 - 30001))

  module _ (centi : ℤ) (v : ℕ × ℕ × ℕ) where
    -- A device with the same configuration: the version, and the temperature that is reported for want
    -- of a measured one.
    pub record Configured (d : Device f o) : Type 0 where
      pub version : d.firmware_version ≡ (pos v.0, pos v.1, pos v.2)
      pub centi_low : negsuc (2 ^ 31 - 1) ≤ℤ centi
      pub centi_high : centi ≤ℤ pos (2 ^ 31 - 30001)
      pub fallback : encode_temperature f d.fallback_celsius ≡ clamp_u16 (centi +ℤ pos 30000)

    temperature-agrees :
        (fallback : f.F) (answer : ℤ)
        → encode_temperature f fallback ≡ clamp_u16 (centi +ℤ pos 30000)
        → negsuc (2 ^ 31 - 1) ≤ℤ answer
        → answer ≤ℤ pos (2 ^ 31 - 1)
        → encode_temperature f (reported_celsius f fallback answer)
          ≡ clamp_u16 ((if eqb_ℤ answer unsupported then centi else answer) +ℤ pos 30000)
    unfolding reported_celsius
    temperature-agrees fallback answer e lo hi = elim (Bool-cases (eqb_ℤ answer unsupported)) [
      | inl h ↦ rw h e
      | inr h ↦ rw h (encode_hundredths f laws answer (omega arith) (omega arith))
    ]

    block-agrees :
        (moving : Bool) (z : ℤ) (celsius : f.F) (raw : ℤ) (settings : ℕ)
        → pos 0 ≤ℤ z
        → z ≤ℤ pos (2 ^ 32 - 1)
        → settings < 256
        → encode_temperature f celsius ≡ clamp_u16 (raw +ℤ pos 30000)
        → Host.encode_state f moving z celsius settings
          ≡ ok (encode_state moving (uint32 z) raw settings)
    block-agrees moving (negsuc n) celsius raw settings lo hi k e = absurd (omega arith)
    block-agrees moving (pos n) celsius raw settings lo hi k e =
        let fits : n % 2 ^ 32 ≡ n = omega arith in
        rw fits (encode_state-agrees f moving n celsius raw settings (omega arith) k e)

    state_body-agrees :
        (d : Device f o)
        → Measures
        → IsReady f o c d
        → Configured d
        → ((state_body f o d).0 ≡ ok (state_reply_body o (mirror f o centi v d)).0)
          × ((state_reply_body o (mirror f o centi v d)).1
              ≡ mirror f o centi v (state_body f o d).1)
    unfolding state_body state_reply_body
    state_body-agrees d m r g =
        let (low, high) = m d.focuser r.focuser_safe in
        let (lo, hi) =
          c.position_range _ (c.is_moving_safe _ (c.temperature_safe d.focuser r.focuser_safe)) in
        (
          block-agrees _ _ _ _ d.settings lo hi r.settings_byte
              (temperature-agrees d.fallback_celsius _ g.fallback low (omega (arith, high))),
          refl,
        )

    identity-agrees :
        (d : Device f o)
        → IsReady f o c d
        → Configured d
        → Host.identity_body d.firmware_version ≡ ok (encode_identity v.0 v.1 v.2)
    identity-agrees d r g =
        let e = g.version in
        rw e (
          encode_identity-agrees v.0 v.1 v.2 (byte _ v.0 (ap (λ t. t.0) e) r.major)
            (byte _ v.1 (ap (λ t. t.1) e) r.minor) (byte _ v.2 (ap (λ t. t.2) e) r.patch))
      where
        byte : (z : ℤ) (n : ℕ) → z ≡ pos n → IsByteInt z → n < 256
        byte z n e h = omega (arith, rw e at h)

    serial-agrees :
        (d : Device f o)
        → IsReady f o c d
        → Host.serial_body d.serial ≡ ok (take 12 (ljust 12 d.serial))
    unfolding Host.serial_body
    serial-agrees d r = rw (ltb-false 12 (length d.serial) r.serial_size) (
        ap ok (
          sym (
            take_all 12 (ljust 12 d.serial) (
              omega (
                arith,
                length-append d.serial (replicate (12 - length d.serial) 0),
                length-replicate {A = ℕ} (12 - length d.serial) 0,
                r.serial_size,
              )))))

    zero-agrees : Host.zero_body ≡ replicate 12 0
    unfolding Host.zero_body
    zero-agrees = refl

    -- The body for the pending register
    body-agrees :
        (d : Device f o)
        → Measures
        → IsReady f o c d
        → Configured d
        → ((reply_body f o d).0 ≡ ok (switch_pending o (mirror f o centi v d)).0)
          × ((switch_pending o (mirror f o centi v d)).1 ≡ mirror f o centi v (reply_body f o d).1)
    unfolding reply_body switch_pending
    body-agrees d m r g =
        ground
          (arith, state_body-agrees d m r g, identity-agrees d r g, serial-agrees d r, zero-agrees)

    -- What TinyUSB is given of an answer of the device: it puts the report ID in front itself.
    abbrev pub payload_of : Result Host.ValueError Answer → Option Bytes
    payload_of (ok (reply b)) = some (drop 1 b)
    payload_of (ok ack) = none
    payload_of (err e) = none

    switch_pending-IsBody :
        (d : Device f o)
        → Measures
        → IsReady f o c d
        → Configured d
        → IsBody (switch_pending o (mirror f o centi v d)).0
    switch_pending-IsBody d m r g = rw (body-agrees d m r g).0 at ((reply_body-IsBody f o c d r).0)

    framed :
        (pending reqlen : ℕ) (body : Bytes) (r : Result Host.ValueError Bytes)
        → length body ≡ 12
        → 16 ≤ reqlen
        → r ≡ ok body
        → payload o (frame_reply pending body 16)
          ≡ payload_of
              ((r >>= Host.frame_reply pending) >>= (λ b. ok (reply (take (suc reqlen) b))))
    framed pending reqlen body r h k e =
        let (b, ours, theirs, shape) = frame_reply-agrees pending 16 body h (omega arith) in
        rw (ours, e, theirs, shape, take_all reqlen (0x7e ∷ 0x5a ∷ pending ∷ body) (omega arith))
          (ap some (take_all 15 (0x7e ∷ 0x5a ∷ pending ∷ body) (omega arith)))

    -- A GET_REPORT with room for the report
    pub get-agrees :
        (reqlen : ℕ) (d : Device f o)
        → 16 ≤ reqlen
        → Measures
        → IsReady f o c d
        → Configured d
        → get_report_cb o reqlen (mirror f o centi v d) ≡ (
          payload_of (handle f o (get_report (suc reqlen)) d).0,
          mirror f o centi v (handle f o (get_report (suc reqlen)) d).1,
        )
    unfolding get_report_cb firmware_reply handle handle_get_report current_reply
    get-agrees reqlen d k m r g =
        let (same, after) = body-agrees d m r g in
        rw (ltb-false reqlen 16 k) (λ i. (
          framed d.pending reqlen (switch_pending o (mirror f o centi v d)).0 (reply_body f o d).0
              (switch_pending-IsBody d m r g).0 k same i,
          after i,
        ))
