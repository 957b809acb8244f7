-- ===== src/Capture/Stream/Chunks.antt =====
-- `feed` ends, leaves less than one record behind, and gives the same records however the stream is
-- cut into chunks.
use zwo_eaf_proxy.Base.{
  ℕ, zero, suc, ◌<◌, ◌≡◌, ◌≢◌, refl, sym, ap, ◌∙◌, [], ◌∷◌, ◌++◌, arith, length, length-append,
  append_assoc, ◌⊎◌, inl, inr,
}
use zwo_eaf_proxy.Base.Bytes.{Bytes}
use zwo_eaf_proxy.Capture.Stream.{
  Captured, Decoder, Round, wait, implausible, yields, round, buffered, Status, waiting, desync,
  out_of_fuel, Fed, prepend, drain, feed,
}
use zwo_eaf_proxy.Capture.Stream.Steps.{round_shorter, round_waits, round-buffered, with_more}

-- `drain` by the outcome of its first round.
abbrev pub next : Round → ℕ → Decoder → Fed
next wait k d = record { records = []; decoder = d; status = waiting }
next (implausible n) k d = record { records = []; decoder = d; status = desync n }
next (yields r d') k d = prepend (r ∷ []) (drain k d')

pub drain-next : (k : ℕ) (d : Decoder) (o : Round) → round d ≡ o → drain (suc k) d ≡ next o k d
unfolding drain
drain-next k d wait e = rw (e, drain)
drain-next k d (implausible n) e = rw (e, drain)
drain-next k d (yields r d') e = rw (e, drain)

pub Round-cases :
    (o : Round)
    → (o ≡ wait)
      ⊎ ((n : ℕ) × (o ≡ implausible n))
      ⊎ ((r : Captured) × (d : Decoder) × (o ≡ yields r d))
Round-cases wait = inl refl
Round-cases (implausible n) = inr (inl (n, refl))
Round-cases (yields r d) = inr (inr (r, d, refl))

-- What becomes of a run of `feed` when more bytes come: a decoder that waits goes on, one that
-- raised keeps them in its buffer.
abbrev pub continue : Status → Bytes → Fed → Fed
continue waiting b x = prepend x.records (feed b x.decoder)
continue (desync n) b x = record x { decoder = buffered b x.decoder }
continue out_of_fuel b x = x

abbrev pub then_feed : Bytes → Fed → Fed
then_feed b x = continue x.status b x

continue-prepend :
    (s : Status) (r : Captured) (b : Bytes) (x : Fed)
    → continue s b (prepend (r ∷ []) x) ≡ prepend (r ∷ []) (continue s b x)
continue-prepend waiting r b x = refl
continue-prepend (desync n) r b x = refl
continue-prepend out_of_fuel r b x = refl

-- Enough fuel is enough.
pub drain_fuel :
    (k m : ℕ) (d : Decoder) → length d.buffer < k → length d.buffer < m → drain k d ≡ drain m d
drain_fuel zero m d h g = absurd (omega arith)
drain_fuel (suc k) zero d h g = absurd (omega arith)
drain_fuel (suc k) (suc m) d h g = elim (Round-cases (round d)) [
  | inl e ↦ drain-next k d wait e ∙ sym (drain-next m d wait e)
  | inr (inl (n, e)) ↦ drain-next k d (implausible n) e ∙ sym (drain-next m d (implausible n) e)
  | inr (inr (r, d', e)) ↦
      let shorter = round_shorter d r d' e in
      drain-next k d (yields r d') e
      ∙ ap (prepend (r ∷ [])) (drain_fuel k m d' (omega arith) (omega arith))
      ∙ sym (drain-next m d (yields r d') e)
]

buffered-next :
    (m : ℕ) (d : Decoder) (b : Bytes) (o : Round)
    → round d ≡ o
    → o ≢ wait
    → drain (suc m) (buffered b d) ≡ next (with_more b o) m (buffered b d)
buffered-next m d b o e ne =
    drain-next m (buffered b d) (with_more b o)
      (round-buffered d b (λ w. ne (sym e ∙ w)) ∙ ap (with_more b) e)

drain-buffered :
    (k m : ℕ) (d : Decoder) (b : Bytes)
    → length d.buffer < k
    → length (d.buffer ++ b) < m
    → drain m (buffered b d) ≡ then_feed b (drain k d)
drain-buffered zero m d b h g = absurd (omega arith)
drain-buffered (suc k) zero d b h g = absurd (omega arith)
drain-buffered (suc k) (suc m) d b h g = elim (Round-cases (round d)) [
  | inl e ↦
      rw (drain-next k d wait e)
        (unfold feed in drain_fuel (suc m) _ (buffered b d) g (omega arith))
  | inr (inl (n, e)) ↦
      rw (drain-next k d (implausible n) e) (buffered-next m d b (implausible n) e (λ w. cc))
  | inr (inr (r, d', e)) ↦
      let shorter = round_shorter d r d' e in
      rw (drain-next k d (yields r d') e) (
        buffered-next m d b (yields r d') e (λ w. cc)
        ∙ ap (prepend (r ∷ [])) (
            drain-buffered k m d' b (omega arith)
              (omega (arith, length-append d.buffer b, length-append d'.buffer b)))
        ∙ sym (continue-prepend (drain k d').status r b (drain k d')))
]

-- Feeding a stream in two chunks gives the records, the state and the ending of feeding it at once.
-- After a desync the later bytes wait in the buffer.
pub feed-append : (a b : Bytes) (d : Decoder) → feed (a ++ b) d ≡ then_feed b (feed a d)
unfolding feed
feed-append a b d =
    ap (λ x. drain (suc (length x)) (record d { buffer = x })) (sym (append_assoc d.buffer a b))
    ∙ drain-buffered _ _ (buffered a d) b (omega arith) (omega arith)

drain-ends : (k : ℕ) (d : Decoder) → length d.buffer < k → (drain k d).status ≢ out_of_fuel
drain-ends zero d h = absurd (omega arith)
drain-ends (suc k) d h = elim (Round-cases (round d)) [
  | inl e ↦ rw (drain-next k d wait e) (λ w. cc)
  | inr (inl (n, e)) ↦ rw (drain-next k d (implausible n) e) (λ w. cc)
  | inr (inr (r, d', e)) ↦
      rw (drain-next k d (yields r d') e) (drain-ends k d' (omega (arith, round_shorter d r d' e)))
]

drain_waits :
    (k : ℕ) (d : Decoder) → (drain k d).status ≡ waiting → length (drain k d).decoder.buffer < 1032
drain_waits zero d h = unfold drain in cc
drain_waits (suc k) d h = elim (Round-cases (round d)) [
  | inl e ↦ rw (drain-next k d wait e) (round_waits d e)
  | inr (inl (n, e)) ↦ cc (ap (λ x. x.status) (drain-next k d (implausible n) e))
  | inr (inr (r, d', e)) ↦
      rw (drain-next k d (yields r d') e)
        (drain_waits k d' (rw (drain-next k d (yields r d') e) at h))
]

-- On any bytes the loop of `feed` comes to an end, by waiting for more or by raising.
pub feed-ends : (chunk : Bytes) (d : Decoder) → (feed chunk d).status ≢ out_of_fuel
unfolding feed
feed-ends chunk d = drain-ends _ (buffered chunk d) (omega arith)

-- A decoder that waits for more bytes holds less than one record of the largest size, which has
-- 4 + 1028 bytes.
pub feed_waits :
    (chunk : Bytes) (d : Decoder)
    → (feed chunk d).status ≡ waiting
    → length (feed chunk d).decoder.buffer < 1032
unfolding feed
feed_waits chunk d = drain_waits _ (buffered chunk d)
