-- ===== src/Persona/Protocol/Encode.antt =====
-- What the encoders write: the state block read back field by field, the temperature scale, and
-- when each body fits its report.
use zwo_eaf_proxy.Base.{
  ℕ, ◌-◌, ◌%◌, ◌^◌, ◌≤◌, ◌<◌, ◌≡◌, ◌∙◌, ap, Bool, true, false, [], ◌∷◌, ◌++◌, arith, if◌then◌else◌,
  length, All, get_or, slice, length-append, length-replicate, ltb-false,
}
use zwo_eaf_proxy.Base.Int.{ℤ, pos, negsuc, ◌≤ℤ◌, ◌+ℤ◌, ◌-ℤ◌}
use zwo_eaf_proxy.Base.Result.{ok, Yields}
use zwo_eaf_proxy.Base.Bytes.{Bytes, IsByte, to_bytes, from_bytes, ljust, All-ljust}
use zwo_eaf_proxy.Float.{Float, IsFloat}
use zwo_eaf_proxy.Persona.Eaf.{Version}
use zwo_eaf_proxy.Persona.Protocol.{
  frame_reply, clamp_u16, encode_temperature, decode_temperature, encode_state, identity_body,
  serial_body, zero_body,
}

-- The bodies that `frame_reply` takes: twelve bytes.
abbrev pub IsBody : Bytes → Type 0
IsBody b = (length b ≡ 12) × All IsByte b

pub clamp_u16-lt : (z : ℤ) → clamp_u16 z < 2 ^ 16
unfolding clamp_u16
clamp_u16-lt z = ground arith

pub clamp_u16_id : (n : ℕ) → n < 2 ^ 16 → clamp_u16 (pos n) ≡ n
unfolding clamp_u16
clamp_u16_id n h = ground arith

-- A body of any other length is refused; one of twelve bytes is framed in a report of sixteen.
pub frame_reply_lem :
    (register : ℕ) (body : Bytes)
    → length body ≡ 12
    → (frame_reply register body ≡ ok (1 ∷ 0x7e ∷ 0x5a ∷ register ∷ body))
      × (length (1 ∷ 0x7e ∷ 0x5a ∷ register ∷ body) ≡ 16)
unfolding frame_reply
frame_reply_lem register body h = (ground arith, omega arith)

module _ (f : Float) where
  -- What a state block says, for a reader that knows only the layout of the wire.
  pub record Shows (moving : Bool) (position : ℕ) (celsius : f.F) (settings : ℕ) (b : Bytes)
      : Type 0 where
    pub size : length b ≡ 12
    pub flag : get_or b 0 0 ≡ (if moving then 1 else 0)
    pub where_to : from_bytes (slice 2 6 b) ≡ position
    pub raw_temperature : from_bytes (slice 7 9 b) ≡ encode_temperature f celsius
    pub stored : get_or b 9 0 ≡ settings % 256
    pub bias : from_bytes (slice 10 12 b) ≡ 30000
    pub bytes : All IsByte b

  pub encode_state_in_range :
      (moving : Bool) (n : ℕ) (celsius : f.F) (settings : ℕ)
      → n < 2 ^ 32
      → encode_state f moving (pos n) celsius settings
        ≡ ok (
            ((if moving then 1 else 0) ∷ 0 ∷ [])
            ++ (to_bytes 4 n
                ++ (0 ∷ to_bytes 2 (encode_temperature f celsius)
                    ++ (settings % 256 ∷ to_bytes 2 30000))))
  unfolding encode_state
  encode_state_in_range moving n celsius settings h = ground arith

  pub encode_temperature-lt : (c : f.F) → encode_temperature f c < 2 ^ 16
  unfolding encode_temperature
  encode_temperature-lt c = clamp_u16-lt _

  -- A position of four bytes is encoded, and every field can be read back from the block.
  pub encode_state-Shows :
      (moving : Bool) (n : ℕ) (celsius : f.F) (settings : ℕ)
      → n < 2 ^ 32
      → Yields (Shows moving n celsius settings) (encode_state f moving (pos n) celsius settings)
  encode_state-Shows moving n celsius settings h =
      rw (encode_state_in_range moving n celsius settings h) (fields moving)
    where
      fields :
          (moving : Bool)
          → Shows moving n celsius settings (
              ((if moving then 1 else 0) ∷ 0 ∷ [])
              ++ (to_bytes 4 n
                  ++ (0 ∷ to_bytes 2 (encode_temperature f celsius)
                      ++ (settings % 256 ∷ to_bytes 2 30000))))
      fields true = omega (arith, encode_temperature-lt celsius)
      fields false = omega (arith, encode_temperature-lt celsius)

module _ (f : Float) (laws : IsFloat f) where
  -- Every raw value of the temperature field survives decoding and encoding.
  pub encode-decode_temperature :
      (raw : ℕ) → raw < 2 ^ 16 → encode_temperature f (decode_temperature f (pos raw)) ≡ raw
  unfolding encode_temperature decode_temperature
  encode-decode_temperature raw h =
      rw (laws.round_hundredths (pos raw -ℤ pos 30000) (ground arith) (ground arith))
        (unfold clamp_u16 in ground arith)

  -- A backend's hundredths of a degree reach the wire biased, and clamped to sixteen bits.
  pub encode_hundredths :
      (centi : ℤ)
      → negsuc (2 ^ 31 - 1) ≤ℤ centi
      → centi ≤ℤ pos (2 ^ 31)
      → encode_temperature f (f.div (f.of_int centi) (f.of_int (pos 100)))
        ≡ clamp_u16 (centi +ℤ pos 30000)
  unfolding encode_temperature
  encode_hundredths centi h k =
      ap (λ z. clamp_u16 (z +ℤ pos 30000)) (laws.round_hundredths centi (omega arith) (omega arith))

abbrev pub IsByteInt : ℤ → Type 0
IsByteInt z = (pos 0 ≤ℤ z) × (z ≤ℤ pos 255)

-- A version of three bytes gives an identity body.
pub identity_body-IsBody :
    (v : Version) → IsByteInt v.0 → IsByteInt v.1 → IsByteInt v.2 → Yields IsBody (identity_body v)
unfolding identity_body
identity_body-IsBody v h k l = ground arith

-- A serial of at most twelve bytes gives a serial body.
pub serial_body-IsBody : (s : Bytes) → All IsByte s → length s ≤ 12 → Yields IsBody (serial_body s)
unfolding serial_body
serial_body-IsBody s h n = rw (ltb-false 12 (length s) n) (size, All-ljust 12 s h)
  where
    size : length (ljust 12 s) ≡ 12
    size = length-append s _ ∙ omega (arith, length-replicate {A = ℕ} (12 - length s) 0)

pub zero_body-IsBody : IsBody zero_body
unfolding zero_body
zero_body-IsBody = omega arith
