-- ===== src/Persona/Descriptors.antt =====
-- host/src/zwoproxy/personas/descriptors.py: the descriptor bytes of the captured device.
use zwo_eaf_proxy.Base.{ℕ, Option, none, some, [], ◌∷◌, ◌++◌, ◌==◌, if◌then◌else◌}
use zwo_eaf_proxy.Base.Bytes.{Bytes}

abbrev pub device : Bytes
device =
    0x12 ∷ 0x01 ∷ 0x00 ∷ 0x02 ∷ 0x00 ∷ 0x00 ∷ 0x00 ∷ 0x40 ∷ 0xc3 ∷ 0x03 ∷ 0x10 ∷ 0x1f ∷ 0x00 ∷ 0x01
    ∷ 0x01 ∷ 0x02 ∷ 0x03 ∷ 0x01 ∷ []

abbrev pub configuration : Bytes
configuration =
    0x09 ∷ 0x02 ∷ 0x22 ∷ 0x00 ∷ 0x01 ∷ 0x01 ∷ 0x00 ∷ 0xa0 ∷ 0x32 ∷ 0x09 ∷ 0x04 ∷ 0x00 ∷ 0x00 ∷ 0x01
    ∷ 0x03 ∷ 0x00 ∷ 0x00 ∷ 0x00 ∷ 0x09 ∷ 0x21 ∷ 0x11 ∷ 0x01 ∷ 0x00 ∷ 0x01 ∷ 0x22 ∷ 0x44 ∷ 0x00
    ∷ 0x07 ∷ 0x05 ∷ 0x81 ∷ 0x03 ∷ 0x10 ∷ 0x00 ∷ 0x0a ∷ []

-- One report of the report descriptor: its number, and the item 0x81 (input) or 0x91 (output).
abbrev report_items : ℕ → ℕ → Bytes
report_items number kind =
    0x85 ∷ number ∷ 0x95 ∷ 0x0f ∷ 0x75 ∷ 0x08 ∷ 0x26 ∷ 0xff ∷ 0x00 ∷ 0x15 ∷ 0x00 ∷ 0x09 ∷ 0x01
    ∷ kind ∷ 0x02 ∷ []

abbrev pub report : Bytes
report =
    (0x06 ∷ 0x00 ∷ 0xff ∷ 0x09 ∷ 0x01 ∷ 0xa1 ∷ 0x01 ∷ [])
    ++ (report_items 1 0x81
        ++ (report_items 2 0x81 ++ (report_items 3 0x91 ++ (report_items 4 0x91 ++ (0xc0 ∷ [])))))

abbrev pub strings : ℕ → Option Bytes
strings i =
    if i == 0
    then some (0x04 ∷ 0x03 ∷ 0x09 ∷ 0x04 ∷ [])
    else if i == 1
    then some (0x08 ∷ 0x03 ∷ 0x5a ∷ 0 ∷ 0x57 ∷ 0 ∷ 0x4f ∷ 0 ∷ [])
    else if i == 2
    then some (
        0x16 ∷ 0x03 ∷ 0x5a ∷ 0 ∷ 0x57 ∷ 0 ∷ 0x4f ∷ 0 ∷ 0x20 ∷ 0 ∷ 0x44 ∷ 0 ∷ 0x65 ∷ 0 ∷ 0x76 ∷ 0
        ∷ 0x69 ∷ 0 ∷ 0x63 ∷ 0 ∷ 0x65 ∷ 0 ∷ [])
    else if i == 3
    then some (0x0e ∷ 0x03 ∷ 0x31 ∷ 0 ∷ 0x32 ∷ 0 ∷ 0x33 ∷ 0 ∷ 0x34 ∷ 0 ∷ 0x35 ∷ 0 ∷ 0x36 ∷ 0 ∷ [])
    else none
