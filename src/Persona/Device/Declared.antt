-- ===== src/Persona/Device/Declared.antt =====
-- host/src/zwoproxy/personas/eaf_device.py: the attributes of the classes, from which Facedancer makes
-- the descriptors. That the descriptors agree with the captured bytes is tested field by field, at the
-- places that the USB and HID standards give.
use zwo_eaf_proxy.Base.{
  ℕ, ◌+◌, ◌*◌, ◌≡◌, refl, Bool, true, false, some, [], ◌∷◌, length, slice, get_or, if◌then◌else◌,
}
use zwo_eaf_proxy.Base.Bytes.{Bytes, from_bytes_le}
use zwo_eaf_proxy.Text.{Text}
use zwo_eaf_proxy.Persona.Eaf.{zwo_vid, zwo_eaf_pid, usb_serial_string}
use zwo_eaf_proxy.Persona.Descriptors

abbrev pub hid_descriptor_type : ℕ
hid_descriptor_type = 0x21

abbrev pub hid_report_descriptor_type : ℕ
hid_report_descriptor_type = 0x22

-- The requests that the two handlers are registered for
abbrev pub hid_get_report : ℕ
hid_get_report = 0x01

abbrev pub hid_set_report : ℕ
hid_set_report = 0x09

-- `EAFDevice`
pub record DeviceAttributes : Type 0 where
  pub vendor_id : ℕ
  pub product_id : ℕ
  pub device_class : ℕ
  pub device_subclass : ℕ
  pub protocol_revision_number : ℕ
  pub max_packet_size_ep0 : ℕ
  pub usb_spec_version : ℕ
  pub device_revision : ℕ
  pub manufacturer_string : Text
  pub product_string : Text
  pub serial_number_string : Text

abbrev pub eaf_device : DeviceAttributes
eaf_device = record {
  vendor_id = zwo_vid;
  product_id = zwo_eaf_pid;
  device_class = 0;
  device_subclass = 0;
  protocol_revision_number = 0;
  max_packet_size_ep0 = 64;
  usb_spec_version = 0x0200;
  device_revision = 0x0100;
  manufacturer_string = b'Z' ∷ b'W' ∷ b'O' ∷ [];
  product_string = b'Z' ∷ b'W' ∷ b'O' ∷ b' ' ∷ b'D' ∷ b'e' ∷ b'v' ∷ b'i' ∷ b'c' ∷ b'e' ∷ [];
  serial_number_string = usb_serial_string;
}

-- `Configuration`, `Interface` and `ReportEndpoint`
pub record ConfigurationAttributes : Type 0 where
  pub number : ℕ
  pub max_power : ℕ
  pub self_powered : Bool
  pub supports_remote_wakeup : Bool

abbrev pub eaf_configuration : ConfigurationAttributes
eaf_configuration = record {
  number = 1;
  max_power = 100;
  self_powered = false;
  supports_remote_wakeup = true;
}

pub record InterfaceAttributes : Type 0 where
  pub number : ℕ
  pub class_number : ℕ
  pub subclass_number : ℕ
  pub protocol_number : ℕ

abbrev pub eaf_interface : InterfaceAttributes
eaf_interface = record { number = 0; class_number = 3; subclass_number = 0; protocol_number = 0 }

pub record EndpointAttributes : Type 0 where
  pub number : ℕ
  pub is_in : Bool
  pub is_interrupt : Bool
  pub max_packet_size : ℕ
  pub interval : ℕ

abbrev pub report_endpoint : EndpointAttributes
report_endpoint = record {
  number = 1;
  is_in = true;
  is_interrupt = true;
  max_packet_size = 16;
  interval = 10;
}

-- `HIDDescriptor.raw` and `ReportDescriptor.raw`
abbrev pub hid_raw : Bytes
hid_raw = slice 18 27 Descriptors.configuration

abbrev pub report_raw : Bytes
report_raw = Descriptors.report

-- The device descriptor, read as the standard lays it out
device_agrees :
    let d = Descriptors.device in
    let a = eaf_device in
    (from_bytes_le (slice 2 4 d) ≡ a.usb_spec_version)
    × (slice 4 7 d ≡ a.device_class ∷ a.device_subclass ∷ a.protocol_revision_number ∷ [])
    × (get_or d 7 0 ≡ a.max_packet_size_ep0)
    × (from_bytes_le (slice 8 10 d) ≡ a.vendor_id)
    × (from_bytes_le (slice 10 12 d) ≡ a.product_id)
    × (from_bytes_le (slice 12 14 d) ≡ a.device_revision)
device_agrees = (refl, refl, refl, refl, refl, refl)

-- A string descriptor: its length, the type 3, and two bytes for a character
abbrev utf16 : Text → Bytes
utf16 [] = []
utf16 (c ∷ cs) = c ∷ 0 ∷ utf16 cs

abbrev string_descriptor : Text → Bytes
string_descriptor t = (2 + 2 * length t) ∷ 3 ∷ utf16 t

strings_agree :
    (Descriptors.strings 1 ≡ some (string_descriptor eaf_device.manufacturer_string))
    × (Descriptors.strings 2 ≡ some (string_descriptor eaf_device.product_string))
    × (Descriptors.strings 3 ≡ some (string_descriptor eaf_device.serial_number_string))
strings_agree = (refl, refl, refl)

-- The configuration descriptor, with the power in units of two mA
configuration_agrees :
    let d = Descriptors.configuration in
    let c = eaf_configuration in
    let i = eaf_interface in
    let e = report_endpoint in
    (get_or d 5 0 ≡ c.number)
    × (get_or d 7 0
        ≡ 0x80
          + ((if c.self_powered then 0x40 else 0) + (if c.supports_remote_wakeup then 0x20 else 0)))
    × (2 * get_or d 8 0 ≡ c.max_power)
    × (get_or d 11 0 ≡ i.number)
    × (slice 14 17 d ≡ i.class_number ∷ i.subclass_number ∷ i.protocol_number ∷ [])
    × (get_or d 29 0 ≡ e.number + (if e.is_in then 0x80 else 0))
    × (get_or d 30 0 ≡ (if e.is_interrupt then 3 else 0))
    × (from_bytes_le (slice 31 33 d) ≡ e.max_packet_size)
    × (get_or d 33 0 ≡ e.interval)
configuration_agrees = (refl, refl, refl, refl, refl, refl, refl, refl, refl)

-- The HID descriptor announces the report descriptor with its length.
hid_agrees :
    (get_or hid_raw 1 0 ≡ hid_descriptor_type)
    × (get_or hid_raw 6 0 ≡ hid_report_descriptor_type)
    × (from_bytes_le (slice 7 9 hid_raw) ≡ length report_raw)
hid_agrees = (refl, refl, refl)
