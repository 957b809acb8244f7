-- ===== src/Persona/Eaf.antt =====
-- host/src/zwoproxy/personas/eaf.py: the constants of the protocol.
pub mod Register
use zwo_eaf_proxy.Base.{ℕ, List, [], ◌∷◌}
use zwo_eaf_proxy.Base.Int.{ℤ, pos}
use zwo_eaf_proxy.Base.Bytes.{Bytes}

abbrev pub zwo_vid : ℕ
zwo_vid = 0x03C3

abbrev pub zwo_eaf_pid : ℕ
zwo_eaf_pid = 0x1F10

abbrev pub magic : Bytes
magic = 0x7e ∷ 0x5a ∷ []

abbrev pub report_in : ℕ
report_in = 1

abbrev pub report_out : ℕ
report_out = 3

abbrev pub report_size : ℕ
report_size = 16

abbrev pub body_size : ℕ
body_size = 12

abbrev pub temperature_bias : ℕ
temperature_bias = 30000

abbrev pub temperature_scale : ℕ
temperature_scale = 100

-- A version triplet, a `tuple[int, int, int]`.
abbrev pub Version : Type 0
Version = ℤ × ℤ × ℤ

abbrev pub firmware_version : Version
firmware_version = (pos 3, pos 8, pos 2)

abbrev pub identity_model : Bytes
identity_model = 0x45 ∷ 0x45 ∷ 0x41 ∷ 0x46 ∷ 0x4e ∷ []

abbrev pub placeholder_serial : Bytes
placeholder_serial = 0x60 ∷ 0 ∷ 0 ∷ 0 ∷ 0 ∷ 0 ∷ 0 ∷ 0 ∷ []

abbrev pub usb_serial_string : List ℕ
usb_serial_string = b'1' ∷ b'2' ∷ b'3' ∷ b'4' ∷ b'5' ∷ b'6' ∷ []
