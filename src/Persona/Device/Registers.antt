-- ===== src/Persona/Device/Registers.antt =====
-- Register by register: what the host reads after it has named one.
use zwo_eaf_proxy.Base.{
  ℕ, ◌-◌, ◌^◌, ◌<◌, ◌≤◌, ◌≡◌, refl, ap, ◌∙◌, Bool, false, some, [], ◌∷◌, ◌++◌, arith, length,
  get_or, drop, replicate, ltb-false, length-append, length-replicate, ◌==◌,
}
use zwo_eaf_proxy.Base.Int.{ℤ, pos, pos_part, negsuc, ◌≤ℤ◌}
use zwo_eaf_proxy.Base.Result.{Yields, Result, ok, err, ◌>>=◌}
use zwo_eaf_proxy.Base.Bytes.{Bytes, ljust}
use zwo_eaf_proxy.Float.{Float}
use zwo_eaf_proxy.Focuser.{Focuser}
use zwo_eaf_proxy.Persona.Protocol.{
  ValueError, write_state, WriteState, frame_reply, encode_state, identity_body, serial_body,
  zero_body,
}
use zwo_eaf_proxy.Persona.Protocol.Parse.{
  write_report, read_report, parse-write_report, parse-read_iff, Follows,
}
use zwo_eaf_proxy.Persona.Protocol.Encode.{Shows, encode_state-Shows, frame_reply_lem}
use zwo_eaf_proxy.Persona.Device.{
  Device, apply, apply_parsed, state_body, reply_body, current_reply, handle_set_report,
  stored_settings, reported_celsius,
}

get_or_13 : (b : Bytes) → get_or b 13 0 ≡ get_or (drop 4 b) 9 0
get_or_13 [] = refl
get_or_13 (w ∷ []) = refl
get_or_13 (w ∷ x ∷ []) = refl
get_or_13 (w ∷ x ∷ y ∷ []) = refl
get_or_13 (w ∷ x ∷ y ∷ z ∷ b) = refl

framed_body :
    (f : Float) (moving : Bool) (n : ℕ) (celsius : f.F) (settings : ℕ) (r : Result ValueError Bytes)
    (b : Bytes)
    → Yields (Shows f moving n celsius settings) r
    → (r >>= frame_reply 3) ≡ ok b
    → Shows f moving n celsius settings (drop 4 b)
framed_body f moving n celsius settings (err e) b s q = absurd s
framed_body f moving n celsius settings (ok body) b s q = rw shape s
  where
    shape : b ≡ 1 ∷ 0x7e ∷ 0x5a ∷ 3 ∷ body
    shape = cc ((frame_reply_lem 3 body s.size).0)

position_fits :
    (f : Float) (moving : Bool) (z : ℤ) (celsius : f.F) (settings : ℕ) (b : Bytes)
    → (encode_state f moving z celsius settings >>= frame_reply 3) ≡ ok b
    → (pos 0 ≤ℤ z) × (z ≤ℤ pos (2 ^ 32 - 1))
unfolding encode_state
position_fits f moving z celsius settings b q = ground arith

framed_state :
    (f : Float) (moving : Bool) (z : ℤ) (celsius : f.F) (settings : ℕ) (b : Bytes)
    → (encode_state f moving z celsius settings >>= frame_reply 3) ≡ ok b
    → (pos 0 ≤ℤ z) × Shows f moving (pos_part z) celsius settings (drop 4 b)
framed_state f moving (negsuc n) celsius settings b q =
    absurd (omega (arith, position_fits f moving (negsuc n) celsius settings b q))
framed_state f moving (pos n) celsius settings b q = (
  omega arith,
  framed_body f moving n celsius settings _ b
      (encode_state-Shows f moving n celsius settings
        (omega (arith, position_fits f moving (pos n) celsius settings b q)))
      q,
)

module _ (f : Float) (o : Focuser) where
  -- A report that names register `g` changes nothing else.
  after_read :
      (g : ℕ) (rest : Bytes) (d : Device f o)
      → (handle_set_report f o (read_report g ++ rest) d).1 ≡ record d { pending = g }
  unfolding handle_set_report apply
  after_read g rest d =
      ap (λ p. (apply_parsed f o p d).1) ((parse-read_iff (read_report g ++ rest) g).1 (rest, refl))

  identity_reply_at :
      (d : Device f o) (a b c : ℕ)
      → a < 256
      → b < 256
      → c < 256
      → d.pending ≡ 4
      → d.firmware_version ≡ (pos a, pos b, pos c)
      → (current_reply f o d).0
        ≡ ok (
            1 ∷ 0x7e ∷ 0x5a ∷ 4 ∷ a ∷ b ∷ c ∷ 0x45 ∷ 0x45 ∷ 0x41 ∷ 0x46 ∷ 0x4e ∷ 0 ∷ 0 ∷ 0 ∷ 0 ∷ [])
  unfolding current_reply reply_body identity_body frame_reply
  identity_reply_at d a b c ha hb hc e v = ground arith

  -- Naming register 4 makes the device answer its version and the model string.
  pub read_identity :
      (rest : Bytes) (d : Device f o) (a b c : ℕ)
      → a < 256
      → b < 256
      → c < 256
      → d.firmware_version ≡ (pos a, pos b, pos c)
      → (current_reply f o (handle_set_report f o (read_report 4 ++ rest) d).1).0
        ≡ ok (
            1 ∷ 0x7e ∷ 0x5a ∷ 4 ∷ a ∷ b ∷ c ∷ 0x45 ∷ 0x45 ∷ 0x41 ∷ 0x46 ∷ 0x4e ∷ 0 ∷ 0 ∷ 0 ∷ 0 ∷ [])
  read_identity rest d a b c ha hb hc v =
      rw (after_read 4 rest d) (identity_reply_at (record d { pending = 4 }) a b c ha hb hc refl v)

  serial_reply_at :
      (d : Device f o)
      → d.pending ≡ 12
      → length d.serial ≤ 12
      → (current_reply f o d).0
        ≡ ok (1 ∷ 0x7e ∷ 0x5a ∷ 12 ∷ d.serial ++ replicate (12 - length d.serial) 0)
  unfolding current_reply reply_body serial_body
  serial_reply_at d e h =
      rw (e, ltb-false 12 (length d.serial) h) (frame_reply_lem 12 (ljust 12 d.serial) size).0
    where
      size : length (ljust 12 d.serial) ≡ 12
      size =
          length-append d.serial _
          ∙ omega (arith, length-replicate {A = ℕ} (12 - length d.serial) 0)

  -- Naming register 12 makes the device answer the configured serial, zero padded.
  pub read_serial :
      (rest : Bytes) (d : Device f o)
      → length d.serial ≤ 12
      → (current_reply f o (handle_set_report f o (read_report 12 ++ rest) d).1).0
        ≡ ok (1 ∷ 0x7e ∷ 0x5a ∷ 12 ∷ d.serial ++ replicate (12 - length d.serial) 0)
  read_serial rest d h =
      rw (after_read 12 rest d) (serial_reply_at (record d { pending = 12 }) refl h)

  other_reply_at :
      (d : Device f o)
      → (d.pending == 3 ≡ false)
      → (d.pending == 4 ≡ false)
      → (d.pending == 12 ≡ false)
      → (current_reply f o d).0 ≡ ok (1 ∷ 0x7e ∷ 0x5a ∷ d.pending ∷ replicate 12 0)
  unfolding current_reply reply_body zero_body frame_reply
  other_reply_at d h k l = ground arith

  -- The position and the flag that the state block carries are answers of the focuser, asked for
  -- its temperature, then whether it moves, then where it is.
  pub state_reply :
      (d : Device f o) (b : Bytes)
      → d.pending ≡ 3
      → (current_reply f o d).0 ≡ ok b
      → let (centi, s) = o.temperature d.focuser in
        let (moving, s') = o.is_moving s in
        let (position, s'') = o.position s' in
        (pos 0 ≤ℤ position)
        × Shows f moving
            (pos_part position)
            (reported_celsius f d.fallback_celsius centi)
            d.settings
            (drop 4 b)
  unfolding current_reply reply_body state_body
  state_reply d b e r =
      let (centi, s) = o.temperature d.focuser in
      let (moving, s') = o.is_moving s in
      let (position, s'') = o.position s' in
      framed_state f moving position (reported_celsius f d.fallback_celsius centi) d.settings b
        (rw e at r)

  -- The device after a state write of `w`.
  after_write :
      (w : WriteState) (t u : ℕ) (rest : Bytes) (d : Device f o)
      → w.position < 2 ^ 32
      → Follows w.settings rest
      → (handle_set_report f o (write_report t u w ++ rest) d).1 ≡ apply f o (write_state w) d
  unfolding handle_set_report
  after_write w t u rest d h e =
      ap (λ p. (apply_parsed f o p d).1) (parse-write_report w t u rest h e)

  apply-pending : (w : WriteState) (d : Device f o) → (apply f o (write_state w) d).pending ≡ 3
  unfolding apply
  apply-pending w d = refl

  apply-settings :
      (w : WriteState) (d : Device f o) (s : ℕ)
      → w.settings ≡ some s
      → (apply f o (write_state w) d).settings ≡ s
  unfolding apply stored_settings
  apply-settings w d s e = ground arith

  -- A settings byte that the host writes comes back in byte 13 of the reply that follows, whether
  -- the write moves, syncs or halts the focuser.
  pub settings_echo :
      (w : WriteState) (t u s : ℕ) (rest : Bytes) (d : Device f o) (b : Bytes)
      → w.position < 2 ^ 32
      → w.settings ≡ some s
      → s < 256
      → (current_reply f o (handle_set_report f o (write_report t u w ++ rest) d).1).0 ≡ ok b
      → get_or b 13 0 ≡ s
  settings_echo w t u s rest d b h e k r =
      let written = apply f o (write_state w) d in
      let shown =
        state_reply written b (apply-pending w d)
          (rw (after_write w t u rest d h (rw e tt)) at r) in
      get_or_13 b ∙ shown.1.stored ∙ omega (arith, apply-settings w d s e)
