-- ===== src/Capture/Stream/Order.antt =====
-- The clock of the decoder: the timestamps of the records of a stream never run backwards.
use zwo_eaf_proxy.Base.{
  ℕ, zero, suc, ◌+◌, ◌^◌, ◌≤◌, ◌<◌, ◌≡◌, refl, List, [], ◌∷◌, arith, length, All, ltb, ◌==◌,
  if◌then◌else◌, get_or, Bool, true, false, ◌⊎◌, All-append, All-drop, All-take, inl, inr, slice,
  drop, length-take,
}
use zwo_eaf_proxy.Base.Bytes.{Bytes, IsByte, from_bytes}
use zwo_eaf_proxy.Capture.Stream.{
  Captured, timestamp, Decoder, Round, wait, implausible, yields, packet_round, round, buffered,
  drain, feed, next_epoch, extended, padded,
}
use zwo_eaf_proxy.Capture.Stream.Chunks.{drain-next, Round-cases}

-- The time that the decoder has counted to
abbrev pub clock : Decoder → ℕ
clock d = d.epoch + d.last_raw

-- Bytes in the buffer, and a clock reading of sixteen bits
pub record IsSound (d : Decoder) : Type 0 where
  pub bytes : All IsByte d.buffer
  pub raw : d.last_raw < 2 ^ 16

-- Records of which none has a time before `t` or before the one in front of it, the last of them at `u`.
abbrev pub Ordered : ℕ → List Captured → ℕ → Type 0
Ordered t [] u = t ≡ u
Ordered t (r ∷ rs) u = (t ≤ timestamp r) × Ordered (timestamp r) rs u

two_bytes : (b : Bytes) → All IsByte b → length b ≤ 2 → from_bytes b < 2 ^ 16
two_bytes [] h k = omega arith
two_bytes (x ∷ []) h k = omega arith
two_bytes (x ∷ y ∷ []) h k = omega arith
two_bytes (x ∷ y ∷ z ∷ b) h k = absurd (omega arith)

raw_fits : (b : Bytes) → All IsByte b → from_bytes (slice 2 4 b) < 2 ^ 16
raw_fits b h =
    two_bytes (slice 2 4 b) (All-take IsByte 2 (drop 2 b) (All-drop IsByte 2 b h))
      (omega (arith, length-take 2 (drop 2 b)))

-- What a round that yields does to the clock
record Ticks (d : Decoder) (r : Captured) (d' : Decoder) : Type 0 where
  later : clock d ≤ timestamp r
  reached : timestamp r ≡ clock d'
  sound : IsSound d'

extended-Ticks :
    (raw n : ℕ) (d d' : Decoder) (r : Captured)
    → IsSound d
    → raw < 2 ^ 16
    → timestamp r ≡ next_epoch raw d + raw
    → d' ≡ extended raw (drop n d.buffer) d
    → Ticks d r d'
extended-Ticks raw n d d' r s k e g = record {
  later = ground arith;
  reached = ground arith;
  sound = rw g (record { bytes = All-drop IsByte n d.buffer s.bytes; raw = k });
}

packet_round-Ticks :
    (n raw : ℕ) (d : Decoder) (r : Captured) (d' : Decoder)
    → IsSound d
    → raw < 2 ^ 16
    → packet_round n raw d ≡ yields r d'
    → Ticks d r d'
unfolding packet_round
packet_round-Ticks n raw d r d' s k e =
    extended-Ticks raw (4 + padded n) d d' r s k (ground arith) (ground arith)

-- A round that yields comes from one of its two branches.
yielded :
    (short mark : Bool) (x y : Round) (r : Captured) (d' : Decoder)
    → (if short then wait else if mark then x else y) ≡ yields r d'
    → (x ≡ yields r d') ⊎ (y ≡ yields r d')
yielded true mark x y r d' e = cc
yielded false true x y r d' e = inl e
yielded false false x y r d' e = inr e

round-Ticks :
    (d : Decoder) (r : Captured) (d' : Decoder) → IsSound d → round d ≡ yields r d' → Ticks d r d'
unfolding round
round-Ticks d r d' s e =
    let raw = from_bytes (slice 2 4 d.buffer) in
    let k = raw_fits d.buffer s.bytes in
    elim (yielded (ltb (length d.buffer) 4) (get_or d.buffer 0 0 == 0xFF) _ _ r d' e) [
      | inl h ↦ extended-Ticks raw 4 d d' r s k (ground arith) (ground arith)
      | inr h ↦ packet_round-Ticks (from_bytes (slice 0 2 d.buffer)) raw d r d' s k h
    ]

drain-Ordered :
    (k : ℕ) (d : Decoder)
    → IsSound d
    → Ordered (clock d) (drain k d).records (clock (drain k d).decoder)
      × IsSound (drain k d).decoder
unfolding drain
drain-Ordered zero d s = (refl, s)
drain-Ordered (suc k) d s = elim (Round-cases (round d)) [
  | inl e ↦ rw (drain-next k d wait e) (refl, s)
  | inr (inl (n, e)) ↦ rw (drain-next k d (implausible n) e) (refl, s)
  | inr (inr (r, d', e)) ↦
      let t = round-Ticks d r d' s e in
      let rest = drain-Ordered k d' t.sound in
      rw (drain-next k d (yields r d') e) ((t.later, rw t.reached rest.0), rest.1)
]

-- Whatever bytes arrive, a decoder whose buffer holds bytes and whose last clock reading has sixteen bits
-- yields records with timestamps that never run backwards, none before the time that it had counted to,
-- and has then counted to the last of them (to the same time, if there is none). Its buffer holds bytes
-- and its clock reading has sixteen bits again.
pub feed-Ordered :
    (chunk : Bytes) (d : Decoder)
    → IsSound d
    → All IsByte chunk
    → Ordered (clock d) (feed chunk d).records (clock (feed chunk d).decoder)
      × IsSound (feed chunk d).decoder
unfolding feed
feed-Ordered chunk d s h =
    drain-Ordered _ (buffered chunk d)
      (record { bytes = All-append IsByte d.buffer chunk s.bytes h; raw = s.raw })
