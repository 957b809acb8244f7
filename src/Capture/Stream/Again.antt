-- ===== src/Capture/Stream/Again.antt =====
-- A decoder that is fed again, whether it waits or has raised.
use zwo_eaf_proxy.Base.{ℕ, zero, suc, ◌≡◌, refl, ap, ◌∙◌, [], ◌++◌, append-nil, inl, inr}
use zwo_eaf_proxy.Base.Bytes.{Bytes}
use zwo_eaf_proxy.Capture.Stream.{
  Decoder, wait, implausible, yields, round, buffered, Status, waiting, desync, out_of_fuel,
  prepend, drain, feed,
}
use zwo_eaf_proxy.Capture.Stream.Steps.{round-buffered, with_more}
use zwo_eaf_proxy.Capture.Stream.Chunks.{drain-next, Round-cases, feed-append, feed-ends, continue}

-- A decoder that raised has the length that it raised for in front.
drain-stuck :
    (k n : ℕ) (d : Decoder)
    → (drain k d).status ≡ desync n
    → round (drain k d).decoder ≡ implausible n
drain-stuck zero n d h = unfold drain in cc
drain-stuck (suc k) n d h = elim (Round-cases (round d)) [
  | inl e ↦ cc (ap (λ x. x.status) (drain-next k d wait e))
  | inr (inl (m, e)) ↦
      let same = ap (λ x. x.status) (drain-next k d (implausible m) e) in
      rw (drain-next k d (implausible m) e) (e ∙ cc)
  | inr (inr (r, d', e)) ↦
      rw (drain-next k d (yields r d') e)
        (drain-stuck k n d' (rw (drain-next k d (yields r d') e) at h))
]

-- It raises again, and keeps the bytes.
feed-stuck :
    (b : Bytes) (d : Decoder) (n : ℕ)
    → round d ≡ implausible n
    → feed b d ≡ record { records = []; decoder = buffered b d; status = desync n }
unfolding feed
feed-stuck b d n e =
    drain-next _ (buffered b d) (implausible n) (round-buffered d b (λ w. cc) ∙ ap (with_more b) e)

-- The records of a stream in two chunks are those of the first, and those that the second yields behind it.
pub feed-again :
    (a b : Bytes) (d : Decoder)
    → feed (a ++ b) d ≡ prepend (feed a d).records (feed b (feed a d).decoder)
unfolding feed
feed-again a b d = feed-append a b d ∙ by_status (feed a d).status refl
  where
    by_status :
        (s : Status)
        → (feed a d).status ≡ s
        → continue s b (feed a d) ≡ prepend (feed a d).records (feed b (feed a d).decoder)
    by_status waiting e = refl
    by_status (desync n) e =
        let again = feed-stuck b (feed a d).decoder n (drain-stuck _ n (buffered a d) e) in
        rw (again, append-nil (feed a d).records, e) refl
    by_status out_of_fuel e = absurd (feed-ends a d e)
