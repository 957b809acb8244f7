-- ===== src/Capture/Pcap.antt =====
-- host/src/zwoproxy/capture.py, `class PcapWriter`: the packets of a capture in a pcap file.
pub mod ReadBack
use zwo_eaf_proxy.Base.{ℕ, ◌^◌, ◌-◌, ◌+◌, not, ◌&&◌, List, [], ◌∷◌, ◌++◌, length, if◌then◌else◌}
use zwo_eaf_proxy.Base.Int.{ℤ, pos, pos_part, leb_ℤ}
use zwo_eaf_proxy.Base.Result.{Result, ok, err, ◌>>=◌}
use zwo_eaf_proxy.Base.Bytes.{Bytes, to_bytes_le}
use zwo_eaf_proxy.Float.{Float}
use zwo_eaf_proxy.Capture.Stream.{Captured, packet, event}

-- `struct.error`: a value that does not fit its field.
pub data PackError : Type 0 where
  out_of_range : ℤ → PackError

-- `struct.pack("<I", n)`
unfoldable pub pack_u32 : ℤ → Result PackError Bytes
pack_u32 n =
    if leb_ℤ (pos 0) n && leb_ℤ n (pos (2 ^ 32 - 1))
    then ok (to_bytes_le 4 (pos_part n))
    else err (out_of_range n)

-- `CLOCK_HZ` and `LINKTYPE_USB_2_0`
abbrev pub clock_hz : ℕ
clock_hz = 60_000_000

abbrev pub linktype_usb_2_0 : ℕ
linktype_usb_2_0 = 288

-- The global header, `struct.pack("<IHHiIII", 0xA1B2C3D4, 2, 4, 0, 0, 65535, LINKTYPE_USB_2_0)`.
abbrev pub global_header : Bytes
global_header =
    to_bytes_le 4 0xA1B2C3D4
    ++ (to_bytes_le 2 2
        ++ (to_bytes_le 2 4
            ++ (to_bytes_le 4 0
                ++ (to_bytes_le 4 0 ++ (to_bytes_le 4 65535 ++ to_bytes_le 4 linktype_usb_2_0)))))

-- What has been written to the file, and the time at which the capture started.
pub record PcapWriter (f : Float) : Type 0 where
  pub file : Bytes
  pub start_time : f.F

module _ (f : Float) where
  -- `__init__`, on the file that was opened
  unfoldable pub open_writer : f.F → PcapWriter f
  open_writer start_time = record { file = global_header; start_time = start_time }

  unfoldable pub when : PcapWriter f → ℕ → f.F
  when w timestamp = f.add w.start_time (f.div (f.of_int (pos timestamp)) (f.of_int (pos clock_hz)))

  -- `int((when - seconds) * 1_000_000)`
  unfoldable pub micros : f.F → ℤ
  micros at_time =
      f.trunc (f.mul (f.sub at_time (f.of_int (f.trunc at_time))) (f.of_int (pos 1_000_000)))

  -- `write`, of a packet with this timestamp and data. Nothing is written if `pack` raises.
  unfoldable pub write : ℕ → Bytes → PcapWriter f → Result PackError (PcapWriter f)
  write timestamp contents w = do
    seconds ← pack_u32 (f.trunc (when w timestamp))
    fraction ← pack_u32 (micros (when w timestamp))
    size ← pack_u32 (pos (length contents))
    ok (record w { file = (w.file ++ (seconds ++ (fraction ++ (size ++ size)))) ++ contents })
