-- ===== src/Capture/Stream/Steps.antt =====
-- One round of the decoder's loop: what it takes from the buffer, and that bytes further on do not
-- change it.
use zwo_eaf_proxy.Base.{
  ℕ, ◌+◌, ◌-◌, ◌*◌, ◌≤◌, ◌<◌, ◌≡◌, ◌≢◌, refl, [], ◌∷◌, ◌++◌, arith, length, slice, drop,
  length-drop, length-append, take-append, drop-append,
}
use zwo_eaf_proxy.Base.Bytes.{Bytes, from_bytes}
use zwo_eaf_proxy.Capture.Stream.{
  Captured, Decoder, Round, wait, implausible, yields, packet_round, round, buffered, padded,
}

-- A record that is taken makes the buffer shorter by four bytes or more.
packet_round_shorter :
    (n raw : ℕ) (d : Decoder) (r : Captured) (d' : Decoder)
    → packet_round n raw d ≡ yields r d'
    → length d'.buffer + 4 ≤ length d.buffer
unfolding packet_round
packet_round_shorter n raw d r d' e = ground (arith, length-drop (4 + padded n) d.buffer)

pub round_shorter :
    (d : Decoder) (r : Captured) (d' : Decoder)
    → round d ≡ yields r d'
    → length d'.buffer + 4 ≤ length d.buffer
unfolding round
round_shorter d r d' e = ground (
  arith,
  length-drop 4 d.buffer,
  packet_round_shorter (from_bytes (slice 0 2 d.buffer)) (from_bytes (slice 2 4 d.buffer)) d r d',
)

-- A decoder that waits holds less than one record of the largest size.
packet_round_waits :
    (n raw : ℕ) (d : Decoder) → packet_round n raw d ≡ wait → length d.buffer < 1032
unfolding packet_round
packet_round_waits n raw d e = ground arith

pub round_waits : (d : Decoder) → round d ≡ wait → length d.buffer < 1032
unfolding round
round_waits d e = ground (
  arith,
  packet_round_waits (from_bytes (slice 0 2 d.buffer)) (from_bytes (slice 2 4 d.buffer)) d,
)

-- A round that yields or raises does the same when more bytes stand behind.
abbrev pub with_more : Bytes → Round → Round
with_more b wait = wait
with_more b (implausible n) = implausible n
with_more b (yields r d) = yields r (buffered b d)

packet_round-buffered :
    (n raw : ℕ) (d : Decoder) (b : Bytes)
    → packet_round n raw d ≢ wait
    → 4 ≤ length d.buffer
    → packet_round n raw (buffered b d) ≡ with_more b (packet_round n raw d)
unfolding packet_round
packet_round-buffered n raw d b h k = ground (
  arith,
  length-append d.buffer b,
  drop-append (4 + padded n) d.buffer b,
  drop-append 4 d.buffer b,
  take-append (4 + n - 4) (drop 4 d.buffer) b,
  length-drop 4 d.buffer,
)

abbrev pub decoder : Bytes → ℕ → ℕ → Decoder
decoder buffer epoch last_raw = record { buffer = buffer; epoch = epoch; last_raw = last_raw }

round-buffered_at :
    (buffer : Bytes) (epoch last : ℕ) (more : Bytes)
    → round (decoder buffer epoch last) ≢ wait
    → round (decoder (buffer ++ more) epoch last)
      ≡ with_more more (round (decoder buffer epoch last))
unfolding round
round-buffered_at [] epoch last more h = absurd (h refl)
round-buffered_at (a ∷ []) epoch last more h = absurd (h refl)
round-buffered_at (a ∷ b ∷ []) epoch last more h = absurd (h refl)
round-buffered_at (a ∷ b ∷ c ∷ []) epoch last more h = absurd (h refl)
round-buffered_at (a ∷ b ∷ c ∷ e ∷ rest) epoch last more h = ground (
  arith,
  packet_round-buffered (a * 256 + b) (c * 256 + e) (decoder (a ∷ b ∷ c ∷ e ∷ rest) epoch last)
      more,
)

pub round-buffered :
    (d : Decoder) (b : Bytes) → round d ≢ wait → round (buffered b d) ≡ with_more b (round d)
round-buffered d b h = round-buffered_at d.buffer d.epoch d.last_raw b h
