-- ===== src/Firmware/Protocol.antt =====
-- firmware/main/personas/eaf_protocol.cpp, with the constants of its header. No caller passes a null
-- pointer, so that the tests for one are left out.
pub mod Agree
use zwo_eaf_proxy.Base.{
  ℕ, ◌+◌, ◌-◌, ◌*◌, ◌/◌, ◌%◌, ◌^◌, Bool, true, false, not, ◌&&◌, ◌||◌, Option, none, some, List, [],
  ◌∷◌, ◌++◌, ltb, ◌==◌, if◌then◌else◌, length, get_or, take, replicate,
}
use zwo_eaf_proxy.Base.Int.{ℤ, pos, negsuc, pos_part, ◌+ℤ◌, ltb_ℤ}
use zwo_eaf_proxy.Base.Bytes.{Bytes}

abbrev pub k_magic0 : ℕ
k_magic0 = 0x7E

abbrev pub k_magic1 : ℕ
k_magic1 = 0x5A

abbrev pub k_report_in : ℕ
k_report_in = 1

abbrev pub k_report_out : ℕ
k_report_out = 3

abbrev pub k_report_size : ℕ
k_report_size = 16

abbrev pub k_body_size : ℕ
k_body_size = 12

abbrev pub k_temperature_bias : ℤ
k_temperature_bias = pos 30000

abbrev pub k_settings_base : ℕ
k_settings_base = 0x01

abbrev pub k_settings_reverse : ℕ
k_settings_reverse = 0x02

abbrev pub k_settings_absent : ℤ
k_settings_absent = negsuc 0

-- `namespace reg`
abbrev pub k_read : ℕ
k_read = 0x02

abbrev pub k_state : ℕ
k_state = 0x03

abbrev pub k_identity : ℕ
k_identity = 0x04

abbrev pub k_serial : ℕ
k_serial = 0x0C

abbrev pub k_unknown_0d : ℕ
k_unknown_0d = 0x0D

pub data CommandKind : Type 0 where
  k_malformed k_read_register k_write_state : CommandKind

pub record Command : Type 0 where
  pub kind : CommandKind
  pub reg : ℕ
  pub go : Bool
  pub sync : Bool
  pub position : ℕ
  pub settings : ℤ

-- `Command out;`
abbrev pub default_command : Command
default_command = record {
  kind = k_malformed;
  reg = 0;
  go = false;
  sync = false;
  position = 0;
  settings = k_settings_absent;
}

-- `data[i]`, which is read below the length only
abbrev pub at : Bytes → ℕ → ℕ
at bytes i = get_or bytes i 0

-- The four bytes of the position do not overlap, so that `|` adds them.
abbrev pub position_of : Bytes → ℕ
position_of bytes = at bytes 6 * 2 ^ 24 + (at bytes 7 * 2 ^ 16 + (at bytes 8 * 2 ^ 8 + at bytes 9))

-- `ParseCommand`
unfoldable pub parse_command : Bytes → Command
parse_command bytes =
    if ltb (length bytes) 5
    then default_command
    else if not (at bytes 0 == k_report_out)
    then default_command
    else if not (at bytes 1 == k_magic0) || not (at bytes 2 == k_magic1)
    then default_command
    else if at bytes 3 == k_read
    then record default_command { kind = k_read_register; reg = at bytes 4 }
    else if at bytes 3 == k_state
    then (if ltb (length bytes) 10 then default_command else record default_command {
      kind = k_write_state;
      go = not (at bytes 4 == 0);
      sync = ltb 10 (length bytes) && not (at bytes 10 == 0);
      position = position_of bytes;
      settings = if ltb 13 (length bytes) then pos (at bytes 13) else k_settings_absent;
    })
    else default_command

-- `FrameReply`: what it writes, or nothing where it returns 0. It copies `kBodySize` bytes.
unfoldable pub frame_reply : ℕ → Bytes → ℕ → Option Bytes
frame_reply reg_number body out_size =
    if ltb out_size k_report_size
    then none
    else some (k_report_in ∷ k_magic0 ∷ k_magic1 ∷ reg_number ∷ take k_body_size body)

-- `static_cast<uint8_t>`
abbrev pub uint8 : ℕ → ℕ
uint8 n = n % 256

-- `EncodeState` computes the sum as an `int32_t`, which overflows for temperatures of more than 2^31 - 30001
-- hundredths. The two tests, behind which the value is one of sixteen bits
abbrev pub raw_temperature : ℤ → ℕ
raw_temperature centi =
    let raw = centi +ℤ k_temperature_bias in
    let low = if ltb_ℤ raw (pos 0) then pos 0 else raw in
    pos_part (if ltb_ℤ (pos 0xFFFF) low then pos 0xFFFF else low)

-- `EncodeState`
unfoldable pub encode_state : Bool → ℕ → ℤ → ℕ → Bytes
encode_state moving position temperature_centi settings =
    let raw = raw_temperature temperature_centi in
    (if moving then 1 else 0)
    ∷ 0
    ∷ uint8 (position / 2 ^ 24)
    ∷ uint8 (position / 2 ^ 16)
    ∷ uint8 (position / 2 ^ 8)
    ∷ uint8 position
    ∷ 0
    ∷ uint8 (raw / 2 ^ 8)
    ∷ uint8 raw
    ∷ settings
    ∷ uint8 (30000 / 2 ^ 8)
    ∷ uint8 30000
    ∷ []

abbrev pub k_identity_model : Bytes
k_identity_model = 0x45 ∷ 0x45 ∷ 0x41 ∷ 0x46 ∷ 0x4E ∷ []

-- `EncodeIdentity`: the bytes behind the model stay zero.
unfoldable pub encode_identity : ℕ → ℕ → ℕ → Bytes
encode_identity major minor patch =
    major ∷ minor ∷ patch ∷ (k_identity_model ++ replicate (k_body_size - 8) 0)
