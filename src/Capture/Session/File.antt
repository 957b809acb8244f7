-- ===== src/Capture/Session/File.antt =====
-- The transfers of a session, against the decoder on all the bytes that they carried.
use zwo_eaf_proxy.Base.{
  ℕ, ◌≡◌, refl, sym, ap, ◌∙◌, Bool, true, false, Option, none, some, List, [], ◌∷◌, ◌++◌,
  append_assoc, append-nil, if◌then◌else◌,
}
use zwo_eaf_proxy.Base.Result.{Result, ok, returned_first, ok_value}
use zwo_eaf_proxy.Base.Bytes.{Bytes}
use zwo_eaf_proxy.Float.{Float}
use zwo_eaf_proxy.Capture.Stream.{start, prepend, feed}
use zwo_eaf_proxy.Capture.Stream.Again.{feed-again}
use zwo_eaf_proxy.Capture.Pcap.{PcapWriter, open_writer, write}
use zwo_eaf_proxy.Capture.Pcap.ReadBack.{write_all}
use zwo_eaf_proxy.Capture.Session.{
  Session, Delivery, CaptureError, CallbackError, desync_error, pack_error, callback_fuel, resume,
  done, dropped, take_chunk, resubmitted, has_data, on_transfer, handle_events, has_failed, listen,
  wind_down, opened,
}
use zwo_eaf_proxy.Capture.Session.Pump.{Took, Took-prepend, take_chunk-Takes}
use zwo_eaf_proxy.Capture.Session.Records.{packets_of, packets_of-append, write_all-append}

-- The bytes of the transfers that completed or timed out. What another one received, as one that is
-- cancelled, is not looked at.
abbrev pub received : {X : Type 0} → List (Delivery X) → Bytes
received [] = []
received (t ∷ ts) = (if has_data t.status then t.received else []) ++ received ts

abbrev pub all_received : {X : Type 0} → List (List (Delivery X)) → Bytes
all_received [] = []
all_received (b ∷ bs) = received b ++ all_received bs

-- Packets that can be written in two parts
write_all-front :
    (f : Float) (a b : List (ℕ × Bytes)) (w v : PcapWriter f)
    → write_all f (a ++ b) w ≡ ok v
    → (u : PcapWriter f) × (write_all f a w ≡ ok u)
write_all-front f [] b w v h = (w, refl)
write_all-front f ((t, c) ∷ a) b w v h =
    let (u, (rest, first)) = returned_first (write_all f (a ++ b)) (write f t c w) v h in
    let (x, e) = write_all-front f a b u v rest in (x, rw first e)

module _ (f : Float) (X : Type 0) (watched : Bool) where
  pub dropped_ok :
      (r : Option CallbackError) (s u : Session f X) → dropped f X watched r s ≡ ok u → s ≡ u
  dropped_ok none s u e = ok_value s u e
  dropped_ok (some (desync_error n)) s u e = ok_value s u e
  dropped_ok (some (pack_error x)) s u e = ok_value s u e
  dropped_ok (some callback_fuel) s u e = cc

  module _ (started : f.F) where
    -- The packets that the decoder makes of some bytes can be written: their times fit the fields.
    abbrev pub Writable : Bytes → Type 0
    Writable x =
        (w : PcapWriter f) × (write_all f (packets_of (feed x start).records)
            (open_writer f started)
          ≡ ok w)

    pub Writable-front : (x y : Bytes) → Writable (x ++ y) → Writable x
    Writable-front x y (w, h) =
        let first = feed x start in
        let rest = feed y first.decoder in
        write_all-front f (packets_of first.records) (packets_of rest.records)
          (open_writer f started) w
          (ap (λ l. write_all f l (open_writer f started))
              (sym (packets_of-append first.records rest.records)
                ∙ sym (ap (λ r. packets_of r.records) (feed-again x y start)))
            ∙ h)

    -- A session has taken exactly what the decoder makes of some bytes. Failures are left aside.
    abbrev pub Caught : Bytes → Session f X → Type 0
    Caught x s =
        Took f X watched (opened f X watched started) (feed x start) (record s { failure = [] })

    chunk-Caught :
        (x chunk : Bytes) (s : Session f X)
        → Caught x s
        → Writable (x ++ chunk)
        → Caught (x ++ chunk) (take_chunk f X watched chunk s).session
    chunk-Caught x chunk s c (w, h) =
        let first = feed x start in
        let rest = feed chunk s.decoder in
        let joined : feed (x ++ chunk) start ≡ prepend first.records rest =
          feed-again x chunk start ∙ ap (λ d. prepend first.records (feed chunk d)) (sym c.left) in
        let ready =
          sym (
            write_all-append f (packets_of first.records) (packets_of rest.records)
              (open_writer f started) s.writer c.wrote)
          ∙ ap (λ l. write_all f l (open_writer f started))
              (sym (packets_of-append first.records rest.records)
                ∙ sym (ap (λ r. packets_of r.records) joined))
          ∙ h in
        let (took, raised) = take_chunk-Takes f X watched chunk s w ready in
        rw joined (
          Took-prepend f X watched first rest (opened f X watched started)
            (record s { failure = [] })
            (record (take_chunk f X watched chunk s).session { failure = [] }) c
            (record {
              left = took.left;
              wrote = took.wrote;
              packets = took.packets;
              events = took.events;
              reported = took.reported;
              failure = refl;
            }))

    resubmitted-Caught :
        (x : Bytes) (t : Option X) (running : Bool) (s : Session f X)
        → Caught x s
        → Caught x (if running then resubmitted f X watched t s else s)
    resubmitted-Caught x none true s c = c
    resubmitted-Caught x (some e) true s c = c
    resubmitted-Caught x t false s c = c

    -- Whether the callback raised or not
    resume-Caught :
        (x : Bytes) (t : Option X) (running : Bool) (raised : Option CallbackError)
        (s : Session f X)
        → Caught x s
        → Caught x
            (resume f X watched raised s
              (λ u. done f X watched (if running then resubmitted f X watched t u else u))).session
    resume-Caught x t running none s c = resubmitted-Caught x t running s c
    resume-Caught x t running (some e) s c = c

    transfer-Caught :
        (running : Bool) (t : Delivery X) (x : Bytes) (s : Session f X)
        → Caught x s
        → Writable (x ++ (if has_data t.status then t.received else []))
        → Caught
            (x ++ (if has_data t.status then t.received else []))
            (on_transfer f X watched running t s).session
    unfolding on_transfer
    transfer-Caught running t x s c h = by_status (has_data t.status) h
      where
        by_status :
            (b : Bool)
            → Writable (x ++ (if b then t.received else []))
            → Caught
                (x ++ (if b then t.received else []))
                (if b
                  then resume f X watched
                      (take_chunk f X watched t.received s).raised
                      (take_chunk f X watched t.received s).session
                      (λ u.
                        done f X watched
                          (if running then resubmitted f X watched t.resubmit u else u))
                  else done f X watched s).session
        by_status true h =
            resume-Caught (x ++ t.received) t.resubmit running _ _ (chunk-Caught x t.received s c h)
        by_status false h = rw (append-nil x) c

    events-Caught :
        (running : Bool) (ts : List (Delivery X)) (x : Bytes) (s s' : Session f X)
        → handle_events f X watched running ts s ≡ ok s'
        → Caught x s
        → Writable (x ++ received ts)
        → Caught (x ++ received ts) s'
    unfolding handle_events
    events-Caught running [] x s s' e c h = rw (append-nil x, sym (ok_value s s' e)) c
    events-Caught running (t ∷ ts) x s s' e c h =
        let now = if has_data t.status then t.received else [] in
        let called = on_transfer f X watched running t s in
        let (u, (rest, first)) =
          returned_first (handle_events f X watched running ts)
            (dropped f X watched called.raised called.session) s' e in
        let h' = rw (sym (append_assoc x now (received ts))) at h in
        let one = transfer-Caught running t x s c (Writable-front (x ++ now) (received ts) h') in
        rw (sym (append_assoc x now (received ts))) (
          events-Caught running ts (x ++ now) u s' rest
            (rw (sym (dropped_ok called.raised called.session u first)) one) h')

    pub stop-Caught :
        (bs : List (List (Delivery X))) (x : Bytes) (s s' : Session f X)
        → wind_down f X watched bs s ≡ ok s'
        → Caught x s
        → Writable (x ++ all_received bs)
        → Caught (x ++ all_received bs) s'
    unfolding wind_down
    stop-Caught [] x s s' e c h = rw (append-nil x, sym (ok_value s s' e)) c
    stop-Caught (b ∷ bs) x s s' e c h =
        let h' = rw (sym (append_assoc x (received b) (all_received bs))) at h in
        let (u, (rest, first)) =
          returned_first (wind_down f X watched bs) (handle_events f X watched false b s) s' e in
        rw (sym (append_assoc x (received b) (all_received bs))) (
          stop-Caught bs _ u s' rest
            (events-Caught false b x s u first c
              (Writable-front (x ++ received b) (all_received bs) h'))
            h')

    -- A loop that ends with no failure did not stop at one.
    went_on :
        (bs : List (List (Delivery X))) (u s' : Session f X) (l : List X)
        → u.failure ≡ l
        → ◌≡◌ {A = Result (CaptureError X) (Session f X)}
            (if has_failed l then ok u else listen f X watched bs u)
            (ok s')
        → s'.failure ≡ []
        → listen f X watched bs u ≡ ok s'
    went_on bs u s' [] h e n = e
    went_on bs u s' (y ∷ ys) h e n = let same = ap (λ v. v.failure) (ok_value u s' e) in absurd cc

    -- The main loop goes on to the end of the script if no failure ended it.
    pub listen-Caught :
        (bs : List (List (Delivery X))) (x : Bytes) (s s' : Session f X)
        → listen f X watched bs s ≡ ok s'
        → s'.failure ≡ []
        → Caught x s
        → Writable (x ++ all_received bs)
        → Caught (x ++ all_received bs) s'
    unfolding listen
    listen-Caught [] x s s' e n c h = rw (append-nil x, sym (ok_value s s' e)) c
    listen-Caught (b ∷ bs) x s s' e n c h =
        let h' = rw (sym (append_assoc x (received b) (all_received bs))) at h in
        let (u, (rest, first)) =
          returned_first (λ u. if has_failed u.failure then ok u else listen f X watched bs u)
            (handle_events f X watched true b s) s' e in
        rw (sym (append_assoc x (received b) (all_received bs))) (
          listen-Caught bs (x ++ received b) u s' (went_on bs u s' u.failure refl rest n) n
            (events-Caught true b x s u first c
              (Writable-front (x ++ received b) (all_received bs) h'))
            h')
