-- ===== src/Capture/Stream.antt =====
-- host/src/zwoproxy/capture.py, `class StreamDecoder`: the analyzer's byte stream turned into
-- packets and events. A generator that is read to its end is a list of records with what ended it.
pub mod Steps
pub mod RoundTrip
pub mod Chunks
pub mod Order
pub mod Again
use zwo_eaf_proxy.Base.{
  ℕ, zero, suc, ◌+◌, ◌*◌, ◌%◌, ◌^◌, ◌≡◌, List, [], ◌∷◌, ◌++◌, ltb, ◌==◌, if◌then◌else◌, length,
  get_or, slice, drop,
}
use zwo_eaf_proxy.Base.Bytes.{Bytes, from_bytes}

-- `MAX_PACKET_SIZE = 1024 + 1 + 2`
abbrev pub max_packet_size : ℕ
max_packet_size = 1027

-- `CapturedPacket` and `CapturedEvent`: a timestamp, with the data or the code.
pub data Captured : Type 0 where
  packet : ℕ → Bytes → Captured
  event : ℕ → ℕ → Captured

abbrev pub timestamp : Captured → ℕ
timestamp (packet t b) = t
timestamp (event t c) = t

-- The attributes of a `StreamDecoder`.
pub record Decoder : Type 0 where
  pub buffer : Bytes
  pub epoch : ℕ
  pub last_raw : ℕ

-- `__init__`
abbrev pub start : Decoder
start = record { buffer = []; epoch = 0; last_raw = 0 }

-- The epoch after a raw timestamp, in `_extend`.
abbrev pub next_epoch : ℕ → Decoder → ℕ
next_epoch raw d = if ltb raw d.last_raw then d.epoch + 2 ^ 16 else d.epoch

-- `_extend` after the deletion of the record's bytes: the full timestamp and the new state.
abbrev pub extended : ℕ → Bytes → Decoder → Decoder
extended raw buffer d = record { buffer = buffer; epoch = next_epoch raw d; last_raw = raw }

-- What one round of the loop in `feed` does: it returns, raises, or yields a record.
pub data Round : Type 0 where
  wait : Round
  implausible : ℕ → Round
  yields : Captured → Decoder → Round

-- A length is rounded up to a whole number of 16-bit words, `length + (length & 1)`.
abbrev pub padded : ℕ → ℕ
padded n = n + n % 2

-- The rest of a round whose first four bytes are the packet length `n` and the timestamp `raw`.
unfoldable pub packet_round : ℕ → ℕ → Decoder → Round
packet_round n raw d =
    if ltb max_packet_size n
    then implausible n
    else if ltb (length d.buffer) (4 + padded n)
    then wait
    else yields (packet (next_epoch raw d + raw) (slice 4 (4 + n) d.buffer))
        (extended raw (drop (4 + padded n) d.buffer) d)

unfoldable pub round : Decoder → Round
round d =
    let b = d.buffer in
    if ltb (length b) 4
    then wait
    else if get_or b 0 0 == 0xFF
    then (let raw = from_bytes (slice 2 4 b) in
        yields (event (next_epoch raw d + raw) (get_or b 1 0)) (extended raw (drop 4 b) d))
    else packet_round (from_bytes (slice 0 2 b)) (from_bytes (slice 2 4 b)) d

-- How the loop ended: it waits for more bytes, it raised `StreamDesyncError` with the length that
-- it read, or the model's fuel ran out (which `feed-ends` excludes).
pub data Status : Type 0 where
  waiting : Status
  desync : ℕ → Status
  out_of_fuel : Status

pub record Fed : Type 0 where
  pub records : List Captured
  pub decoder : Decoder
  pub status : Status

abbrev pub prepend : List Captured → Fed → Fed
prepend rs r = record r { records = rs ++ r.records }

-- `while True`
unfoldable pub drain : ℕ → Decoder → Fed
drain zero d = record { records = []; decoder = d; status = out_of_fuel }
drain (suc k) d = elim (round d) [
  | wait ↦ record { records = []; decoder = d; status = waiting }
  | implausible n ↦ record { records = []; decoder = d; status = desync n }
  | yields r d' ↦ prepend (r ∷ []) (drain k d')
]

-- `self._buffer.extend(chunk)`
abbrev pub buffered : Bytes → Decoder → Decoder
buffered chunk d = record d { buffer = d.buffer ++ chunk }

-- A round takes four bytes at least, so the length of the buffer is fuel enough.
unfoldable pub feed : Bytes → Decoder → Fed
feed chunk d = let d' = buffered chunk d in drain (suc (length d'.buffer)) d'
