-- ===== src/Firmware/Descriptors.antt =====
-- firmware/main/personas/eaf_descriptors.cpp: the captured bytes once more. They are those of
-- host/src/zwoproxy/personas/descriptors.py.
use zwo_eaf_proxy.Base.{ℕ, ◌+◌, ◌*◌, ◌≡◌, refl, some, [], ◌∷◌, ◌++◌, length}
use zwo_eaf_proxy.Base.Bytes.{Bytes}
use zwo_eaf_proxy.Text.{Text}
use zwo_eaf_proxy.Persona.Descriptors as Host

abbrev pub k_device_descriptor : Bytes
k_device_descriptor =
    0x12 ∷ 0x01 ∷ 0x00 ∷ 0x02 ∷ 0x00 ∷ 0x00 ∷ 0x00 ∷ 0x40 ∷ 0xC3 ∷ 0x03 ∷ 0x10 ∷ 0x1F ∷ 0x00 ∷ 0x01
    ∷ 0x01 ∷ 0x02 ∷ 0x03 ∷ 0x01 ∷ []

abbrev pub k_configuration_descriptor : Bytes
k_configuration_descriptor =
    (0x09 ∷ 0x02 ∷ 0x22 ∷ 0x00 ∷ 0x01 ∷ 0x01 ∷ 0x00 ∷ 0xA0 ∷ 0x32 ∷ [])
    ++ ((0x09 ∷ 0x04 ∷ 0x00 ∷ 0x00 ∷ 0x01 ∷ 0x03 ∷ 0x00 ∷ 0x00 ∷ 0x00 ∷ [])
        ++ ((0x09 ∷ 0x21 ∷ 0x11 ∷ 0x01 ∷ 0x00 ∷ 0x01 ∷ 0x22 ∷ 0x44 ∷ 0x00 ∷ [])
            ++ (0x07 ∷ 0x05 ∷ 0x81 ∷ 0x03 ∷ 0x10 ∷ 0x00 ∷ 0x0A ∷ [])))

-- The items of a report, which differ in its ID and in the kind of the data
abbrev pub k_report_items : ℕ → ℕ → Bytes
k_report_items report_id kind =
    0x85 ∷ report_id ∷ 0x95 ∷ 0x0F ∷ 0x75 ∷ 0x08 ∷ 0x26 ∷ 0xFF ∷ 0x00 ∷ 0x15 ∷ 0x00 ∷ 0x09 ∷ 0x01
    ∷ kind ∷ 0x02 ∷ []

abbrev pub k_report_descriptor : Bytes
k_report_descriptor =
    (0x06 ∷ 0x00 ∷ 0xFF ∷ 0x09 ∷ 0x01 ∷ 0xA1 ∷ 0x01 ∷ [])
    ++ (k_report_items 1 0x81
        ++ (k_report_items 2 0x81
            ++ (k_report_items 3 0x91 ++ (k_report_items 4 0x91 ++ (0xC0 ∷ [])))))

-- The strings behind the language: ASCII, which TinyUSB makes a descriptor of.
abbrev pub k_manufacturer : Text
k_manufacturer = b'Z' ∷ b'W' ∷ b'O' ∷ []

abbrev pub k_product : Text
k_product = b'Z' ∷ b'W' ∷ b'O' ∷ b' ' ∷ b'D' ∷ b'e' ∷ b'v' ∷ b'i' ∷ b'c' ∷ b'e' ∷ []

abbrev pub k_serial_number : Text
k_serial_number = b'1' ∷ b'2' ∷ b'3' ∷ b'4' ∷ b'5' ∷ b'6' ∷ []

descriptors_agree :
    (k_device_descriptor ≡ Host.device)
    × (k_configuration_descriptor ≡ Host.configuration)
    × (k_report_descriptor ≡ Host.report)
descriptors_agree = (refl, refl, refl)

abbrev wide : Text → Bytes
wide [] = []
wide (c ∷ cs) = c ∷ 0 ∷ wide cs

-- A string descriptor of ASCII characters
abbrev string_descriptor : Text → Bytes
string_descriptor t = (2 + 2 * length t) ∷ 3 ∷ wide t

strings_agree :
    (Host.strings 1 ≡ some (string_descriptor k_manufacturer))
    × (Host.strings 2 ≡ some (string_descriptor k_product))
    × (Host.strings 3 ≡ some (string_descriptor k_serial_number))
strings_agree = (refl, refl, refl)
