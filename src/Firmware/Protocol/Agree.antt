-- ===== src/Firmware/Protocol/Agree.antt =====
-- The codec of the firmware against that of the host.
use zwo_eaf_proxy.Base.{
  ℕ, ◌%◌, ◌^◌, ◌≤◌, ◌<◌, ◌≡◌, refl, sym, ap, ◌∙◌, Bool, Option, none, some, [], ◌∷◌, ◌++◌, arith,
  length, take, drop, take_all, ◌/◌, leb, if◌then◌else◌, Bool-cases, inl, inr, length-take,
  take-drop,
}
use zwo_eaf_proxy.Base.Int.{ℤ, pos, ◌+ℤ◌}
use zwo_eaf_proxy.Base.Result.{Result, ok, err}
use zwo_eaf_proxy.Base.Bytes.{Bytes, to_bytes}
use zwo_eaf_proxy.Float.{Float}
use zwo_eaf_proxy.Persona.Protocol as Host
use zwo_eaf_proxy.Persona.Protocol.{
  WriteState, read_register, write_state, clamp_u16, encode_temperature,
}
use zwo_eaf_proxy.Persona.Protocol.Encode.{encode_state_in_range}
use zwo_eaf_proxy.Persona.Protocol.Parse.{parse_padding}
use zwo_eaf_proxy.Firmware.Protocol.{
  k_read_register, k_write_state, Command, default_command, parse_command, uint8, frame_reply,
  encode_state, encode_identity, raw_temperature, k_settings_absent,
}

-- A command of the host as the firmware's, `none` for a malformed report.
abbrev pub settings_field : Option ℕ → ℤ
settings_field none = k_settings_absent
settings_field (some s) = pos s

abbrev pub as_firmware : Result Host.MalformedReport Host.Command → Command
as_firmware (err e) = default_command
as_firmware (ok (read_register g)) = record default_command { kind = k_read_register; reg = g }
as_firmware (ok (write_state w)) = record default_command {
  kind = k_write_state;
  go = w.go;
  sync = w.sync;
  position = w.position;
  settings = settings_field w.settings;
}

-- The firmware decodes every report as the host does, malformed ones included.
pub parse_command-agrees : (r : Bytes) → parse_command r ≡ as_firmware (Host.parse_command r)
unfolding parse_command Host.parse_command Host.parse_state
parse_command-agrees [] = refl
parse_command-agrees (a ∷ []) = refl
parse_command-agrees (a ∷ b ∷ []) = refl
parse_command-agrees (a ∷ b ∷ c ∷ []) = refl
parse_command-agrees (a ∷ b ∷ c ∷ d ∷ []) = refl
parse_command-agrees (a ∷ b ∷ c ∷ d ∷ x0 ∷ []) = ground arith
parse_command-agrees (a ∷ b ∷ c ∷ d ∷ x0 ∷ x1 ∷ []) = ground arith
parse_command-agrees (a ∷ b ∷ c ∷ d ∷ x0 ∷ x1 ∷ x2 ∷ []) = ground arith
parse_command-agrees (a ∷ b ∷ c ∷ d ∷ x0 ∷ x1 ∷ x2 ∷ x3 ∷ []) = ground arith
parse_command-agrees (a ∷ b ∷ c ∷ d ∷ x0 ∷ x1 ∷ x2 ∷ x3 ∷ x4 ∷ []) = ground arith
parse_command-agrees (a ∷ b ∷ c ∷ d ∷ x0 ∷ x1 ∷ x2 ∷ x3 ∷ x4 ∷ x5 ∷ []) = ground arith
parse_command-agrees (a ∷ b ∷ c ∷ d ∷ x0 ∷ x1 ∷ x2 ∷ x3 ∷ x4 ∷ x5 ∷ x6 ∷ []) = ground arith
parse_command-agrees (a ∷ b ∷ c ∷ d ∷ x0 ∷ x1 ∷ x2 ∷ x3 ∷ x4 ∷ x5 ∷ x6 ∷ x7 ∷ []) = ground arith
parse_command-agrees (a ∷ b ∷ c ∷ d ∷ x0 ∷ x1 ∷ x2 ∷ x3 ∷ x4 ∷ x5 ∷ x6 ∷ x7 ∷ x8 ∷ []) =
    ground arith
parse_command-agrees (a ∷ b ∷ c ∷ d ∷ x0 ∷ x1 ∷ x2 ∷ x3 ∷ x4 ∷ x5 ∷ x6 ∷ x7 ∷ x8 ∷ x9 ∷ rest) =
    ground arith

raw-clamp : (centi : ℤ) → raw_temperature centi ≡ clamp_u16 (centi +ℤ pos 30000)
unfolding clamp_u16
raw-clamp centi = ground arith

-- Bytes by shifts are those of `to_bytes`.
shifted :
    (m n raw s : ℕ)
    → s < 256
    → (m ∷ 0 ∷ []) ++ (to_bytes 4 n ++ (0 ∷ to_bytes 2 raw ++ (s % 256 ∷ to_bytes 2 30000)))
      ≡ m
        ∷ 0
        ∷ uint8 (n / 2 ^ 24)
        ∷ uint8 (n / 2 ^ 16)
        ∷ uint8 (n / 2 ^ 8)
        ∷ uint8 n
        ∷ 0
        ∷ uint8 (raw / 2 ^ 8)
        ∷ uint8 raw
        ∷ s
        ∷ uint8 (30000 / 2 ^ 8)
        ∷ uint8 30000
        ∷ []
shifted m n raw s h = ground arith

-- A position of four bytes and a settings byte are encoded alike, where the temperature of the host, in
-- degrees, stands for the hundredths of the firmware.
pub encode_state-agrees :
    (f : Float) (moving : Bool) (n : ℕ) (celsius : f.F) (centi : ℤ) (settings : ℕ)
    → n < 2 ^ 32
    → settings < 256
    → encode_temperature f celsius ≡ clamp_u16 (centi +ℤ pos 30000)
    → Host.encode_state f moving (pos n) celsius settings
      ≡ ok (encode_state moving n centi settings)
unfolding encode_state
encode_state-agrees f moving n celsius centi settings h k e =
    encode_state_in_range f moving n celsius settings h
    ∙ rw (e ∙ sym (raw-clamp centi))
        (ap ok (shifted (if moving then 1 else 0) n (raw_temperature centi) settings k))

-- The body of the identity register
pub encode_identity-agrees :
    (a b c : ℕ)
    → a < 256
    → b < 256
    → c < 256
    → Host.identity_body (pos a, pos b, pos c) ≡ ok (encode_identity a b c)
unfolding Host.identity_body encode_identity
encode_identity-agrees a b c h k l = ground arith

-- A body of twelve bytes is framed alike, in a buffer that is large enough.
pub frame_reply-agrees :
    (g out_size : ℕ) (body : Bytes)
    → length body ≡ 12
    → 16 ≤ out_size
    → (b : Bytes) × (frame_reply g body out_size ≡ some b)
      × (Host.frame_reply g body ≡ ok b)
      × (b ≡ 1 ∷ 0x7e ∷ 0x5a ∷ g ∷ body)
unfolding Host.frame_reply frame_reply
frame_reply-agrees g out_size body h k =
    (1 ∷ 0x7e ∷ 0x5a ∷ g ∷ body, ground (arith, take_all 12 body), ground arith, refl)

-- The report staged by the firmware: the bytes past sixteen are cut off.
pub parse-taken : (r : Bytes) → Host.parse_command (take 16 r) ≡ Host.parse_command r
parse-taken r = elim (Bool-cases (leb (length r) 16)) [
  | inl short ↦ ap Host.parse_command (take_all 16 r (ground arith))
  | inr long ↦
      sym (parse_padding (take 16 r) (drop 16 r) (let e = length-take 16 r in ground arith))
      ∙ ap Host.parse_command (take-drop 16 r)
]
