-- ===== src/Capture/Session/Returns.antt =====
-- A session that the USB library does not fail returns, also where the callback raises.
use zwo_eaf_proxy.Base.{
  ℕ, ◌≡◌, ◌≢◌, refl, ap, ◌∙◌, Bool, true, false, Option, none, some, List, [], ◌∷◌, All,
  if◌then◌else◌, ◌⊎◌, inl, inr,
}
use zwo_eaf_proxy.Base.Result.{Result, ok, ◌>>=◌}
use zwo_eaf_proxy.Float.{Float}
use zwo_eaf_proxy.Capture.Stream.{buffered}
use zwo_eaf_proxy.Capture.Session.{
  Session, Delivery, CaptureError, CallbackError, desync_error, pack_error, callback_fuel, Script,
  has_data, has_failed, and_then, done, dropped, resubmitted, take_chunk, on_transfer,
  handle_events, listen, wind_down, opened, capture,
}
use zwo_eaf_proxy.Capture.Session.Ends.{transfer-Finishes}
use zwo_eaf_proxy.Capture.Session.Whole.{resume-failure, consume-failure}

-- A transfer that can be submitted again, if it is
abbrev pub IsCalm : {X : Type 0} → Bool → Delivery X → Type 0
IsCalm running t = (running ≡ false) ⊎ (t.resubmit ≡ none)

-- The analyzer is found and can be claimed, the capture starts, and every transfer up to the stop can be
-- submitted again. What the transfers carry is any.
pub record IsSmooth (f : Float) (X : Type 0) (e : Script f X) : Type 0 where
  pub found : e.found ≡ true
  pub claim : e.claim ≡ none
  pub begin : e.begin ≡ none
  pub resubmit : All (All (IsCalm true)) e.running

module _ (f : Float) (X : Type 0) (watched : Bool) where
  kept :
      (running : Bool) (o : Option X) (u : Session f X)
      → (running ≡ false) ⊎ (o ≡ none)
      → (if running then resubmitted f X watched o u else u).failure ≡ u.failure
  kept false o u h = refl
  kept true none u h = refl
  kept true (some x) u (inl h) = cc
  kept true (some x) u (inr h) = cc

  transfer-kept :
      (running : Bool) (t : Delivery X) (s : Session f X)
      → IsCalm running t
      → (on_transfer f X watched running t s).session.failure ≡ s.failure
  unfolding on_transfer take_chunk
  transfer-kept running t s h = by_status (has_data t.status)
    where
      by_status :
          (b : Bool)
          → (if b
              then and_then f X watched (take_chunk f X watched t.received s) (λ u.
                done f X watched (if running then resubmitted f X watched t.resubmit u else u))
              else done f X watched s).session.failure
            ≡ s.failure
      by_status true =
          resume-failure f X watched (take_chunk f X watched t.received s).raised _ s _
            (consume-failure f X watched _ (record s { decoder = buffered t.received s.decoder }))
            (λ u. kept running t.resubmit u h)
      by_status false = refl

  dropped-ok :
      (r : Option CallbackError) (s : Session f X)
      → r ≢ some callback_fuel
      → dropped f X watched r s ≡ ok s
  dropped-ok none s h = refl
  dropped-ok (some (desync_error n)) s h = refl
  dropped-ok (some (pack_error x)) s h = refl
  dropped-ok (some callback_fuel) s h = absurd (h refl)

  -- It returns, with the failures that there were.
  abbrev Returns : List X → Result (CaptureError X) (Session f X) → Type 0
  Returns l r = (u : Session f X) × (r ≡ ok u) × (u.failure ≡ l)

  events-Returns :
      (running : Bool) (ts : List (Delivery X)) (s : Session f X)
      → All (IsCalm running) ts
      → Returns s.failure (handle_events f X watched running ts s)
  unfolding handle_events
  events-Returns running [] s h = (s, refl, refl)
  events-Returns running (t ∷ ts) s h =
      let called = on_transfer f X watched running t s in
      let (u, e, same) = events-Returns running ts called.session h.1 in
      (
        u,
        ap (λ m. m >>= handle_events f X watched running ts)
              (dropped-ok called.raised called.session (transfer-Finishes f X watched running t s))
            ∙ e,
        same ∙ transfer-kept running t s h.0,
      )

  stopped-IsCalm : (ts : List (Delivery X)) → All (IsCalm false) ts
  stopped-IsCalm [] = tt
  stopped-IsCalm (t ∷ ts) = (inl refl, stopped-IsCalm ts)

  stop-Returns :
      (bs : List (List (Delivery X))) (s : Session f X)
      → Returns s.failure (wind_down f X watched bs s)
  unfolding wind_down
  stop-Returns [] s = (s, refl, refl)
  stop-Returns (b ∷ bs) s =
      let (u, e, same) = events-Returns false b s (stopped-IsCalm b) in
      let (v, g, kept) = stop-Returns bs u in
      (v, ap (λ m. m >>= wind_down f X watched bs) e ∙ g, kept ∙ same)

  listen-Returns :
      (bs : List (List (Delivery X))) (s : Session f X)
      → s.failure ≡ []
      → All (All (IsCalm true)) bs
      → Returns [] (listen f X watched bs s)
  unfolding listen
  listen-Returns [] s n h = (s, refl, n)
  listen-Returns (b ∷ bs) s n h =
      let (u, e, same) = events-Returns true b s h.0 in
      let (v, g, kept) = listen-Returns bs u (same ∙ n) h.1 in
      (
        v,
        ap (λ m. m >>= (λ u. if has_failed u.failure then ok u else listen f X watched bs u)) e
            ∙ rw (same ∙ n) g,
        kept,
      )

  -- Where the analyzer is found and can be claimed, the capture starts, and every transfer up to
  -- the stop can be submitted again, a capture returns, whatever bytes the transfers carry, also
  -- where they make the callback raise.
  pub capture-returns :
      (speed : ℕ) (e : Script f X)
      → IsSmooth f X e
      → (s : Session f X) × ((capture f X watched speed e).1 ≡ ok s)
  unfolding capture
  capture-returns speed e h =
      let (u, listened, n) =
        listen-Returns e.running (opened f X watched e.started) refl h.resubmit in
      let (v, stopped, m) = stop-Returns e.stopping u in
      (v, rw (h.found, h.claim, h.begin, listened, stopped, m ∙ n) refl)
