-- ===== src/Persona/Tests.antt =====
-- The captured descriptors: their own length fields, and the slice that the device class takes.
use zwo_eaf_proxy.Base.{◌≡◌, refl, length, get_or, slice}
use zwo_eaf_proxy.Base.Bytes.{from_bytes_le}
use zwo_eaf_proxy.Persona.Descriptors.{device, configuration, report}
use zwo_eaf_proxy.Persona.Eaf.{zwo_vid, zwo_eaf_pid}

length-device : length device ≡ get_or device 0 0
length-device = refl

device_ids :
    (from_bytes_le (slice 8 10 device) ≡ zwo_vid)
    × (from_bytes_le (slice 10 12 device) ≡ zwo_eaf_pid)
device_ids = (refl, refl)

length-configuration : length configuration ≡ from_bytes_le (slice 2 4 configuration)
length-configuration = refl

-- Bytes 18 to 26 are the HID descriptor, which announces the length of the report descriptor.
hid_descriptor : length report ≡ from_bytes_le (slice 7 9 (slice 18 27 configuration))
hid_descriptor = refl
