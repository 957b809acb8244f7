-- ===== src/Capture/Stream/RoundTrip.antt =====
-- The stream format of the analyzer, as the head of capture.py documents it, and its decoding.
use zwo_eaf_proxy.Base.{
  ℕ, zero, suc, ◌+◌, ◌-◌, ◌/◌, ◌%◌, ◌^◌, ◌≤◌, ◌<◌, ◌≡◌, refl, sym, ap, ◌∙◌, List, [], ◌∷◌, ◌++◌,
  arith, length, length-append, append_assoc, replicate, length-replicate, take, drop, slice,
  take-length, drop-length,
}
use mathlib.Core.Path.{subst}
use zwo_eaf_proxy.Base.Bytes.{Bytes, to_bytes, from_bytes-to_bytes_2}
use zwo_eaf_proxy.Capture.Stream.{
  Captured, packet, event, timestamp, Decoder, wait, yields, packet_round, round, waiting, Fed,
  drain, feed, next_epoch, padded, extended,
}
use zwo_eaf_proxy.Capture.Stream.Steps.{decoder}
use zwo_eaf_proxy.Capture.Stream.Chunks.{drain-next}

-- The bytes of a record, big-endian: the marker, the code and the low sixteen bits of the clock; or
-- the length, the clock, the data and a byte of padding behind an odd number of them.
abbrev pub encode : Captured → Bytes
encode (event t code) = 0xFF ∷ code ∷ to_bytes 2 (t % 2 ^ 16)
encode (packet t b) =
    to_bytes 2 (length b) ++ (to_bytes 2 (t % 2 ^ 16) ++ (b ++ replicate (length b % 2) 0))

abbrev pub stream : List Captured → Bytes
stream [] = []
stream (r ∷ rs) = encode r ++ stream rs

-- A packet has at most 1027 bytes.
abbrev pub Fits : Captured → Type 0
Fits (packet t b) = length b ≤ 1027
Fits (event t c) = Unit

-- Records after time `t`, each less than a wrap of the clock after the one before it.
abbrev pub Paced : ℕ → List Captured → Type 0
Paced t [] = Unit
Paced t (r ∷ rs) = Fits r × (t ≤ timestamp r) × (timestamp r < t + 2 ^ 16) × Paced (timestamp r) rs

-- The decoder has counted the wraps up to time `t`.
pub record IsAt (t : ℕ) (d : Decoder) : Type 0 where
  pub clock : d.epoch + d.last_raw ≡ t
  pub wraps : d.epoch % 2 ^ 16 ≡ 0
  pub raw : d.last_raw < 2 ^ 16

-- The state behind a record of time `t`.
abbrev stepped : ℕ → Bytes → Decoder → Decoder
stepped t rest d = extended (t % 2 ^ 16) rest d

stepped-IsAt :
    (t u : ℕ) (rest : Bytes) (d : Decoder)
    → IsAt t d
    → t ≤ u
    → u < t + 2 ^ 16
    → IsAt u (stepped u rest d)
stepped-IsAt t u rest d at h k = ground arith

event_round :
    (t c epoch last : ℕ) (rest : Bytes)
    → let d = decoder (encode (event t c) ++ rest) epoch last in
      round d ≡ yields (event (next_epoch (t % 2 ^ 16) d + t % 2 ^ 16) c) (stepped t rest d)
unfolding round
event_round t c epoch last rest = ground (arith, from_bytes-to_bytes_2 (t % 2 ^ 16) (omega arith))

-- The data and the padding of a packet.
abbrev contents : Bytes → Bytes
contents b = b ++ replicate (length b % 2) 0

length-contents : (b : Bytes) → length (contents b) ≡ padded (length b)
length-contents b = length-append b _ ∙ omega (arith, length-replicate {A = ℕ} (length b % 2) 0)

packet_at :
    (b rest : Bytes) (w x y z raw epoch last : ℕ)
    → length b ≤ 1027
    → let d = decoder (w ∷ x ∷ y ∷ z ∷ contents b ++ rest) epoch last in
      packet_round (length b) raw d
      ≡ yields (packet (next_epoch raw d + raw) b) (extended raw rest d)
unfolding packet_round
packet_at b rest w x y z raw epoch last h =
    ground (arith, length-append (contents b) rest, length-contents b, data_of, rest_of)
  where
    behind : drop (padded (length b)) (contents b ++ rest) ≡ rest
    behind = rw (← length-contents b) (drop-length (contents b) rest)

    data_of : slice 4 (4 + length b) (w ∷ x ∷ y ∷ z ∷ contents b ++ rest) ≡ b
    data_of =
        let e : 4 + length b - 4 ≡ length b = omega arith in
        ap (λ n. take n (contents b ++ rest)) e
        ∙ ap (take (length b)) (append_assoc b _ rest)
        ∙ take-length b _

    rest_of : drop (4 + padded (length b)) (w ∷ x ∷ y ∷ z ∷ contents b ++ rest) ≡ rest
    rest_of =
        let e : 4 + padded (length b) ≡ suc (suc (suc (suc (padded (length b))))) = omega arith in
        ap (λ n. drop n (w ∷ x ∷ y ∷ z ∷ contents b ++ rest)) e ∙ behind

-- Where a record stands in front of the buffer, a round takes it, with the time that the decoder
-- makes of its sixteen bits.
abbrev retimed : ℕ → Captured → Captured
retimed u (packet t b) = packet u b
retimed u (event t c) = event u c

record_round :
    (r : Captured) (epoch last : ℕ) (rest : Bytes)
    → Fits r
    → let d = decoder (encode r ++ rest) epoch last in
      let raw = timestamp r % 2 ^ 16 in
      round d ≡ yields (retimed (next_epoch raw d + raw) r) (stepped (timestamp r) rest d)
record_round (event t c) epoch last rest h = event_round t c epoch last rest
record_round (packet t b) epoch last rest h =
    let n = length b in
    let raw = t % 2 ^ 16 in
    unfold round in
    ground (
      arith,
      from_bytes-to_bytes_2 raw (omega arith),
      from_bytes-to_bytes_2 n (omega arith),
      packet_at b rest (n / 256 % 256) (n % 256) (raw / 256 % 256) (raw % 256) raw epoch last h,
    )

retimed_self : (u : ℕ) (r : Captured) → u ≡ timestamp r → retimed u r ≡ r
retimed_self u (packet t b) e = ap (λ v. packet v b) e
retimed_self u (event t c) e = ap (λ v. event v c) e

exact_time :
    (t u epoch last : ℕ) (rest : Bytes)
    → IsAt t (decoder rest epoch last)
    → t ≤ u
    → u < t + 2 ^ 16
    → next_epoch (u % 2 ^ 16) (decoder rest epoch last) + u % 2 ^ 16 ≡ u
exact_time t u epoch last rest at h k = ground arith

record_round_exact :
    (t : ℕ) (r : Captured) (epoch last : ℕ) (rest : Bytes)
    → Fits r
    → IsAt t (decoder (encode r ++ rest) epoch last)
    → t ≤ timestamp r
    → timestamp r < t + 2 ^ 16
    → round (decoder (encode r ++ rest) epoch last)
      ≡ yields r (stepped (timestamp r) rest (decoder (encode r ++ rest) epoch last))
record_round_exact t r epoch last rest fits at h k =
    record_round r epoch last rest fits
    ∙ ap (λ c. yields c (stepped (timestamp r) rest (decoder (encode r ++ rest) epoch last)))
        (retimed_self _ r (exact_time t (timestamp r) epoch last (encode r ++ rest) at h k))

-- Reading a stream to its end.
abbrev pub Decodes : List Captured → Fed → Type 0
Decodes rs x = (x.records ≡ rs) × (x.status ≡ waiting) × (x.decoder.buffer ≡ [])

encode_nonempty : (r : Captured) → 1 ≤ length (encode r)
encode_nonempty (event t c) = omega arith
encode_nonempty (packet t b) = omega arith

drain-stream :
    (k t : ℕ) (rs : List Captured) (epoch last : ℕ)
    → length (stream rs) < k
    → Paced t rs
    → IsAt t (decoder (stream rs) epoch last)
    → Decodes rs (drain k (decoder (stream rs) epoch last))
drain-stream zero t rs epoch last h p at = absurd (omega arith)
drain-stream (suc k) t [] epoch last h p at =
    rw (drain-next k (decoder [] epoch last) wait (unfold round in refl)) (refl, refl, refl)
drain-stream (suc k) t (r ∷ rs) epoch last h (fits, lo, hi, p) at =
    let d = decoder (encode r ++ stream rs) epoch last in
    let d' = stepped (timestamp r) (stream rs) d in
    let (records, status, buffer) =
      drain-stream k (timestamp r) rs d'.epoch d'.last_raw
        (omega (arith, length-append (encode r) (stream rs), encode_nonempty r)) p
        (stepped-IsAt t (timestamp r) (stream rs) d at lo hi) in
    rw (drain-next k d (yields r d') (record_round_exact t r epoch last (stream rs) fits at lo hi))
      (ap (λ xs. r ∷ xs) records, status, buffer)

-- A stream in the analyzer's format, whose records come less than one wrap of the clock after one
-- another, decodes to those records, with the full timestamps, and leaves nothing in the buffer.
pub feed-stream :
    (t : ℕ) (rs : List Captured) (d : Decoder)
    → d.buffer ≡ []
    → IsAt t d
    → Paced t rs
    → Decodes rs (feed (stream rs) d)
unfolding feed
feed-stream t rs d e at p =
    let q : stream rs ≡ d.buffer ++ stream rs = ap (λ b. b ++ stream rs) (sym e) in
    subst (λ b. Decodes rs (drain (suc (length b)) (decoder b d.epoch d.last_raw))) q
      (drain-stream (suc (length (stream rs))) t rs d.epoch d.last_raw (omega arith) p
        (record { clock = at.clock; wraps = at.wraps; raw = at.raw }))
