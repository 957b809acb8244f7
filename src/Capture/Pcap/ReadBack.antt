-- ===== src/Capture/Pcap/ReadBack.antt =====
-- A pcap file that the writer made, read back by the rules of the format.
use zwo_eaf_proxy.Base.{
  ℕ, zero, suc, ◌+◌, ◌^◌, ◌<◌, ◌≡◌, refl, ap, ◌∙◌, Option, none, some, List, [], ◌∷◌, ◌++◌, map,
  arith, ltb, if◌then◌else◌, length, length-append, take, drop, slice, take-length, drop-length,
  append_assoc, append-nil,
}
use zwo_eaf_proxy.Base.Int.{pos_part}
use zwo_eaf_proxy.Base.Result.{Result, ok, ◌>>=◌, returned_first}
use zwo_eaf_proxy.Base.Bytes.{Bytes, to_bytes_le, from_bytes_le, from_bytes_le-to_bytes_le_4}
use zwo_eaf_proxy.Float.{Float}
use zwo_eaf_proxy.Capture.Pcap.{PackError, pack_u32, PcapWriter, open_writer, write, when, micros}
use mathlib.Core.Option

-- A reader of the record part of a file: the included length stands in bytes 8 to 11 of a record
-- header of sixteen bytes, and the data behind it. `none` is a file that is cut off.
unfoldable pub read_records : ℕ → Bytes → Option (List Bytes)
read_records zero b = none
read_records (suc k) [] = some []
read_records (suc k) (x ∷ xs) =
    let b = x ∷ xs in
    let n = from_bytes_le (slice 8 12 b) in
    let rest = read_records k (drop n (drop 16 b)) in
    if ltb (length b) (16 + n) then none else Option.map (λ ds. take n (drop 16 b) ∷ ds) rest

-- A file is its global header, of 24 bytes, and its records.
abbrev pub read_pcap : Bytes → Option (List Bytes)
read_pcap b = read_records (suc (length b)) (drop 24 b)

-- `write` of several packets, each a timestamp and data.
module _ (f : Float) where
  abbrev pub write_all : List (ℕ × Bytes) → PcapWriter f → Result PackError (PcapWriter f)
  write_all [] w = ok w
  write_all ((t, b) ∷ ps) w = write f t b w >>= write_all ps

-- The header of a record, from its four numbers.
abbrev header : ℕ → ℕ → ℕ → Bytes
header a c n = to_bytes_le 4 a ++ (to_bytes_le 4 c ++ (to_bytes_le 4 n ++ to_bytes_le 4 n))

module _ (f : Float) where
  -- A packet that is written adds a header with its length, and its data.
  write-adds :
      (t : ℕ) (b : Bytes) (w w' : PcapWriter f)
      → write f t b w ≡ ok w'
      → (a : ℕ) × (c : ℕ) × (w'.file ≡ w.file ++ (header a c (length b) ++ b)) × (length b < 2 ^ 32)
  unfolding write pack_u32
  write-adds t b w w' e =
      let a = pos_part (f.trunc (when f w t)) in
      let c = pos_part (micros f (when f w t)) in
      (a, c, ground (arith, append_assoc w.file (header a c (length b)) b), ground arith)

-- The reader takes a record of a known header apart.
read_record :
    (k a c : ℕ) (b rest : Bytes)
    → length b < 2 ^ 32
    → read_records (suc k) ((header a c (length b) ++ b) ++ rest)
      ≡ Option.map (λ ds. b ∷ ds) (read_records k rest)
unfolding read_records
read_record k a c b rest h = ground (
  arith,
  from_bytes_le-to_bytes_le_4 (length b) h,
  take-length b rest,
  drop-length b rest,
  length-append b rest,
)

read_records-nil : (k : ℕ) → 0 < k → read_records k [] ≡ some []
unfolding read_records
read_records-nil zero h = absurd (omega arith)
read_records-nil (suc k) h = refl

-- One record more.
reading :
    (a c : ℕ) (b r : Bytes) (ds : List Bytes)
    → length b < 2 ^ 32
    → ((k : ℕ) → length r < k → read_records k r ≡ some ds)
    → (k : ℕ) → length ((header a c (length b) ++ b) ++ r) < k
    → read_records k ((header a c (length b) ++ b) ++ r) ≡ some (b ∷ ds)
reading a c b r ds fits reads zero h = absurd (omega arith)
reading a c b r ds fits reads (suc k) h =
    read_record k a c b r fits
    ∙ ap (Option.map (λ xs. b ∷ xs)) (reads k (omega (arith, length-append b r)))

module _ (f : Float) where
  -- What the writer adds to its file is read back as the data of the packets.
  write_all-adds :
      (ps : List (ℕ × Bytes)) (w w' : PcapWriter f)
      → write_all f ps w ≡ ok w'
      → (r : Bytes) × (w'.file ≡ w.file ++ r)
        × ((k : ℕ) → length r < k → read_records k r ≡ some (map (λ p. p.1) ps))
  write_all-adds [] w w' e = ([], ground (arith, append-nil w.file), read_records-nil)
  write_all-adds ((t, b) ∷ ps) w w' e =
      let (v, (rest, ev)) = returned_first (write_all f ps) (write f t b w) w' e in
      let (a, c, added, fits) = write-adds f t b w v ev in
      let (r, added', reads) = write_all-adds ps v w' rest in
      (
        (header a c (length b) ++ b) ++ r,
        added' ∙ ap (λ x. x ++ r) added ∙ append_assoc w.file _ r,
        reading a c b r (map (λ p. p.1) ps) fits reads,
      )

  -- The file of a capture, read by the rules of the format, gives back the data of every packet
  -- that was written, in order.
  pub read_pcap-write_all :
      (start_time : f.F) (ps : List (ℕ × Bytes)) (w : PcapWriter f)
      → write_all f ps (open_writer f start_time) ≡ ok w
      → read_pcap w.file ≡ some (map (λ p. p.1) ps)
  unfolding open_writer
  read_pcap-write_all start_time ps w e =
      let (r, added, reads) = write_all-adds ps (open_writer f start_time) w e in
      rw added (reads _ (omega arith))
