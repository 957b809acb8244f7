-- ===== src/Capture/Session/Ends.antt =====
-- The loops of a session come to an end: the model's fuel suffices.
use zwo_eaf_proxy.Base.{
  ℕ, zero, suc, ◌<◌, ◌≡◌, ◌≢◌, refl, Bool, true, false, Option, none, some, List, [], ◌∷◌, arith,
  length, if◌then◌else◌, inl, inr,
}
use zwo_eaf_proxy.Base.Result.{Result, ok, err, ◌>>=◌}
use zwo_eaf_proxy.Float.{Float}
use zwo_eaf_proxy.Capture.Stream.{
  Captured, packet, event, wait, implausible, yields, round, buffered,
}
use zwo_eaf_proxy.Capture.Stream.Chunks.{Round-cases}
use zwo_eaf_proxy.Capture.Stream.Steps.{round_shorter}
use zwo_eaf_proxy.Capture.Pcap.{PcapWriter, PackError, write}
use zwo_eaf_proxy.Capture.Session.{
  Session, Delivery, CaptureError, loop_fuel, CallbackError, callback_fuel, desync_error,
  pack_error, Called, resume, and_then, done, dropped, no_analyzer, Script, has_data, has_failed,
  count_packet, resubmitted, take_record, consume, take_chunk, on_transfer, handle_events, listen,
  wind_down, begun, finish, claimed, capture,
}
use zwo_eaf_proxy.Capture.Session.Pump.{next_consume, consume-next}

module _ (f : Float) (X : Type 0) (watched : Bool) where
  -- A result that is not the model's own.
  abbrev Ends : Result (CaptureError X) (Session f X) → Type 0
  Ends r = r ≢ err loop_fuel

  -- A call of the callback that raises nothing of the model's own.
  abbrev pub Finishes : Called f X → Type 0
  Finishes c = c.raised ≢ some callback_fuel

  Ends-bind :
      (m : Result (CaptureError X) (Session f X))
      → (g : Session f X → Result (CaptureError X) (Session f X)) → Ends m
      → ((s : Session f X) → m ≡ ok s → Ends (g s))
      → Ends (m >>= g)
  Ends-bind (ok s) g h k = k s refl
  Ends-bind (err x) g h k = λ e. h cc

  Ends-if :
      (b : Bool) (m n : Result (CaptureError X) (Session f X))
      → Ends m
      → Ends n
      → Ends (if b then m else n)
  Ends-if true m n h k = h
  Ends-if false m n h k = k

  resume-Finishes :
      (r : Option CallbackError) (s : Session f X) (k : Session f X → Called f X)
      → r ≢ some callback_fuel
      → Finishes (k s)
      → Finishes (resume f X watched r s k)
  resume-Finishes none s k h g = g
  resume-Finishes (some e) s k h g = h

  -- A record is taken without fuel, and the decoder is left as it is.
  abbrev Takes : Session f X → Called f X → Type 0
  Takes s c = Finishes c × (c.session.decoder ≡ s.decoder)

  take_record-Takes : (r : Captured) (s : Session f X) → Takes s (take_record f X watched r s)
  unfolding take_record
  take_record-Takes (packet t b) s = counted (write f t b s.writer)
    where
      counted : (w : Result PackError (PcapWriter f)) → Takes s (count_packet f X watched s w)
      counted (ok w) = (λ e. cc, refl)
      counted (err x) = (λ e. cc, refl)
  take_record-Takes (event t c) s = (λ e. cc, refl)

  consume-Finishes :
      (k : ℕ) (s : Session f X) → length s.decoder.buffer < k → Finishes (consume f X watched k s)
  unfolding next_consume
  consume-Finishes zero s h = absurd (omega arith)
  consume-Finishes (suc k) s h = elim (Round-cases (round s.decoder)) [
    | inl o ↦ rw (consume-next f X watched k s wait o) (λ e. cc)
    | inr (inl (n, o)) ↦ rw (consume-next f X watched k s (implausible n) o) (λ e. cc)
    | inr (inr (r, d, o)) ↦ rw (consume-next f X watched k s (yields r d) o) (
        let (fine, same) = take_record-Takes r (record s { decoder = d }) in
        resume-Finishes _ _ (consume f X watched k) fine
          (consume-Finishes k _ (rw same (omega (arith, round_shorter s.decoder r d o)))))
  ]

  -- No call of the callback runs out of fuel.
  pub transfer-Finishes :
      (running : Bool) (t : Delivery X) (s : Session f X)
      → Finishes (on_transfer f X watched running t s)
  unfolding on_transfer take_chunk
  transfer-Finishes running t s = by_status (has_data t.status)
    where
      by_status :
          (b : Bool)
          → Finishes (
              if b
              then and_then f X watched (take_chunk f X watched t.received s) (λ u.
                done f X watched (if running then resubmitted f X watched t.resubmit u else u))
              else done f X watched s)
      by_status true =
          resume-Finishes _ _ _
            (consume-Finishes _ (record s { decoder = buffered t.received s.decoder })
              (omega arith))
            (λ e. cc)
      by_status false = λ e. cc

  dropped-Ends :
      (r : Option CallbackError) (s : Session f X)
      → r ≢ some callback_fuel
      → Ends (dropped f X watched r s)
  dropped-Ends none s h = λ e. cc
  dropped-Ends (some (desync_error n)) s h = λ e. cc
  dropped-Ends (some (pack_error x)) s h = λ e. cc
  dropped-Ends (some callback_fuel) s h = absurd (h refl)

  events-Ends :
      (running : Bool) (ts : List (Delivery X)) (s : Session f X)
      → Ends (handle_events f X watched running ts s)
  unfolding handle_events
  events-Ends running [] s = λ e. cc
  events-Ends running (t ∷ ts) s =
      Ends-bind _ _ (dropped-Ends _ _ (transfer-Finishes running t s))
        (λ u e. events-Ends running ts u)

  stop-Ends : (bs : List (List (Delivery X))) (s : Session f X) → Ends (wind_down f X watched bs s)
  unfolding wind_down
  stop-Ends [] s = λ e. cc
  stop-Ends (b ∷ bs) s = Ends-bind _ _ (events-Ends false b s) (λ u e. stop-Ends bs u)

  listen-Ends : (bs : List (List (Delivery X))) (s : Session f X) → Ends (listen f X watched bs s)
  unfolding listen
  listen-Ends [] s = λ e. cc
  listen-Ends (b ∷ bs) s =
      Ends-bind _ _ (events-Ends true b s)
        (λ u e. Ends-if (has_failed u.failure) _ _ (λ h. cc) (listen-Ends bs u))

  finish-Ends : (s : Session f X) (l : List X) → Ends (finish f X watched s l)
  finish-Ends s [] = λ e. cc
  finish-Ends s (x ∷ xs) = λ e. cc

  begun-Ends : (b : Option X) (e : Script f X) → Ends (begun f X watched b e)
  begun-Ends (some x) e = λ h. cc
  begun-Ends none e = Ends-bind _ _ (listen-Ends e.running _) (λ u h. stop-Ends e.stopping u)

  claimed-Ends :
      (c : Option X) (speed : ℕ) (e : Script f X) → Ends (claimed f X watched c speed e).1
  claimed-Ends (some x) speed e = λ h. cc
  claimed-Ends none speed e = Ends-bind _ _ (begun-Ends e.begin e) (λ u h. finish-Ends u u.failure)

  -- Every script of a session ends with a result or with an exception of the program: the loop over
  -- the records of a chunk never runs out of the model's fuel.
  pub capture-ends : (speed : ℕ) (e : Script f X) → (capture f X watched speed e).1 ≢ err loop_fuel
  unfolding capture
  capture-ends speed e = found-Ends e.found
    where
      found-Ends :
          (b : Bool)
          → Ends (if b then claimed f X watched e.claim speed e else ([], err no_analyzer)).1
      found-Ends true = claimed-Ends e.claim speed e
      found-Ends false = λ h. cc
