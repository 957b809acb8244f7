-- ===== src/Capture/Session/Whole.antt =====
-- A whole session: what `capture` writes and counts, against the bytes that the analyzer sent.
use zwo_eaf_proxy.Base.{
  ℕ, zero, suc, inl, inr, ◌≡◌, refl, sym, ap, ◌∙◌, Bool, true, false, Option, none, some, List, [],
  ◌∷◌, ◌++◌, map, arith, length, if◌then◌else◌,
}
use zwo_eaf_proxy.Base.Result.{Result, ok, err, returned_first, ok_value}
use zwo_eaf_proxy.Base.Bytes.{Bytes}
use zwo_eaf_proxy.Float.{Float}
use zwo_eaf_proxy.Capture.Stream.{
  Captured, packet, event, wait, implausible, yields, start, waiting, round, buffered, drain, feed,
}
use zwo_eaf_proxy.Capture.Stream.Chunks.{Round-cases}
use zwo_eaf_proxy.Capture.Pcap.{PcapWriter, PackError, write}
use zwo_eaf_proxy.Capture.Pcap.ReadBack.{read_pcap, read_pcap-write_all}
use zwo_eaf_proxy.Capture.Session.{
  Session, Delivery, CallbackError, Called, Script, resume, and_then, done, dropped, count_packet,
  take_record, consume, take_chunk, has_data, on_transfer, handle_events, listen, wind_down,
  no_analyzer, opened, begun, claimed, finish, capture,
}
use zwo_eaf_proxy.Capture.Session.Pump.{nothing, next_consume, consume-next}
use zwo_eaf_proxy.Capture.Session.Records.{packets_of, count_events, reported_of}
use zwo_eaf_proxy.Capture.Session.File.{
  all_received, dropped_ok, Writable, Writable-front, Caught, listen-Caught, stop-Caught,
}

module _ (f : Float) (X : Type 0) (watched : Bool) where
  -- The loop over the records does not change the failures, whatever it raises.
  pub resume-failure :
      (r : Option CallbackError) (t s : Session f X) (k : Session f X → Called f X)
      → t.failure ≡ s.failure
      → ((u : Session f X) → (k u).session.failure ≡ u.failure)
      → (resume f X watched r t k).session.failure ≡ s.failure
  resume-failure none t s k h g = g t ∙ h
  resume-failure (some e) t s k h g = h

  record-failure :
      (r : Captured) (s : Session f X) → (take_record f X watched r s).session.failure ≡ s.failure
  unfolding take_record
  record-failure (packet t b) s = counted (write f t b s.writer)
    where
      counted :
          (w : Result PackError (PcapWriter f))
          → (count_packet f X watched s w).session.failure ≡ s.failure
      counted (ok w) = refl
      counted (err e) = refl
  record-failure (event t c) s = refl

  pub consume-failure :
      (k : ℕ) (s : Session f X) → (consume f X watched k s).session.failure ≡ s.failure
  unfolding next_consume
  consume-failure zero s = unfold consume in refl
  consume-failure (suc k) s = elim (Round-cases (round s.decoder)) [
    | inl o ↦ rw (consume-next f X watched k s wait o) refl
    | inr (inl (n, o)) ↦ rw (consume-next f X watched k s (implausible n) o) refl
    | inr (inr (r, d, o)) ↦ rw (consume-next f X watched k s (yields r d) o) (
        resume-failure (take_record f X watched r (record s { decoder = d })).raised _ s
          (consume f X watched k) (record-failure r (record s { decoder = d })) (consume-failure k))
  ]

  -- Behind the stop no transfer is submitted again, so nothing can fail.
  transfer-failure :
      (t : Delivery X) (s : Session f X)
      → (on_transfer f X watched false t s).session.failure ≡ s.failure
  unfolding on_transfer take_chunk
  transfer-failure t s = by_status (has_data t.status)
    where
      by_status :
          (b : Bool)
          → (if b
              then and_then f X watched
                  (take_chunk f X watched t.received s)
                  (λ u. done f X watched u)
              else done f X watched s).session.failure
            ≡ s.failure
      by_status true =
          resume-failure (take_chunk f X watched t.received s).raised _ s (λ u. done f X watched u)
            (consume-failure _ (record s { decoder = buffered t.received s.decoder })) (λ u. refl)
      by_status false = refl

  events-failure :
      (ts : List (Delivery X)) (s s' : Session f X)
      → handle_events f X watched false ts s ≡ ok s'
      → s'.failure ≡ s.failure
  unfolding handle_events
  events-failure [] s s' e = ap (λ v. v.failure) (sym (ok_value s s' e))
  events-failure (t ∷ ts) s s' e =
      let called = on_transfer f X watched false t s in
      let (u, (rest, first)) =
        returned_first (handle_events f X watched false ts)
          (dropped f X watched called.raised called.session) s' e in
      events-failure ts u s' rest
      ∙ ap (λ v. v.failure) (sym (dropped_ok f X watched called.raised called.session u first))
      ∙ transfer-failure t s

  stop-failure :
      (bs : List (List (Delivery X))) (s s' : Session f X)
      → wind_down f X watched bs s ≡ ok s'
      → s'.failure ≡ s.failure
  unfolding wind_down
  stop-failure [] s s' e = ap (λ v. v.failure) (sym (ok_value s s' e))
  stop-failure (b ∷ bs) s s' e =
      let (u, (rest, first)) =
        returned_first (wind_down f X watched bs) (handle_events f X watched false b s) s' e in
      stop-failure bs u s' rest ∙ events-failure b s u first

  finished :
      (s s' : Session f X) (l : List X) → finish f X watched s l ≡ ok s' → (l ≡ []) × (s ≡ s')
  finished s s' [] e = (refl, ok_value s s' e)
  finished s s' (x ∷ xs) e = absurd cc

  -- Everything that the transfers of a script carry.
  abbrev pub sent : Script f X → Bytes
  sent e = all_received e.running ++ all_received e.stopping

  -- Before the first transfer nothing is taken.
  opened-Caught : (started : f.F) → Caught f X watched started [] (opened f X watched started)
  unfolding feed drain round
  opened-Caught started = nothing f X watched (opened f X watched started) waiting

  -- The session of a run without a failure took all of it.
  begun-Caught :
      (b : Option X) (e : Script f X) (s : Session f X)
      → begun f X watched b e ≡ ok s
      → s.failure ≡ []
      → Writable f X watched e.started (sent e)
      → Caught f X watched e.started (sent e) s
  begun-Caught (some x) e s h n c = absurd cc
  begun-Caught none e s h n c =
      let first = opened f X watched e.started in
      let (u, (rest, listened)) =
        returned_first (wind_down f X watched e.stopping) (listen f X watched e.running first) s
          h in
      stop-Caught f X watched e.started e.stopping (all_received e.running) u s rest
        (listen-Caught f X watched e.started e.running [] first u listened
          (sym (stop-failure e.stopping u s rest) ∙ n) (opened-Caught e.started)
          (Writable-front f X watched e.started (all_received e.running) (all_received e.stopping)
            c))
        c

  -- The file of the session holds the packets that the decoder makes of the bytes, and no more, the
  -- counts are those of its packets and events, and its events were reported if anyone asked for them.
  abbrev pub IsWritten : Bytes → Session f X → Type 0
  IsWritten x s =
      let r = feed x start in
      (read_pcap s.writer.file ≡ some (map (λ p. p.1) (packets_of r.records)))
      × (s.packets ≡ length (packets_of r.records))
      × (s.events ≡ count_events r.records)
      × (s.reported ≡ reported_of watched r.records)

  -- What has been caught is in the file, and counted.
  Caught-file :
      (started : f.F) (x : Bytes) (s : Session f X) → Caught f X watched started x s → IsWritten x s
  Caught-file started x s c = (
    read_pcap-write_all f started (packets_of (feed x start).records) s.writer c.wrote,
    omega (arith, c.packets),
    omega (arith, c.events),
    c.reported,
  )

  -- A capture that returns, over bytes of whose packets the times fit the fields of the file, has written
  -- exactly the packets that the decoder makes of all the bytes of the transfers that completed or timed
  -- out, in order, up to the first length that is implausible, has reported their events if asked to,
  -- and returns the number of both.
  pub capture-feed :
      (speed : ℕ) (e : Script f X) (s : Session f X)
      → (capture f X watched speed e).1 ≡ ok s
      → Writable f X watched e.started (sent e)
      → IsWritten (sent e) s
  unfolding capture
  capture-feed speed e s h c = ran e.found e.claim h
    where
      ran :
          (found : Bool) (claim : Option X)
          → (if found then claimed f X watched claim speed e else ([], err no_analyzer)).1 ≡ ok s
          → IsWritten (sent e) s
      ran false claim h = absurd cc
      ran true (some x) h = absurd cc
      ran true none h =
          let (u, (last, first)) =
            returned_first (λ u. finish f X watched u u.failure) (begun f X watched e.begin e) s
              h in
          let (n, same) = finished u s u.failure last in
          rw (sym same) (Caught-file e.started (sent e) u (begun-Caught e.begin e u first n c))
