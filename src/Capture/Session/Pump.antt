-- ===== src/Capture/Session/Pump.antt =====
-- The loop of the callback over the records of a chunk, against the decoder's `feed`.
use zwo_eaf_proxy.Base.{
  ℕ, zero, suc, ◌+◌, ◌≡◌, refl, sym, ap, ◌∙◌, Bool, true, false, Option, none, some, if◌then◌else◌,
  append_assoc, append-nil, [], ◌∷◌, ◌++◌, arith, length, length-append, inl, inr,
}
use zwo_eaf_proxy.Base.Result.{ok, returned_first}
use zwo_eaf_proxy.Base.Bytes.{Bytes}
use zwo_eaf_proxy.Float.{Float}
use zwo_eaf_proxy.Capture.Stream.{
  Captured, packet, event, Decoder, Round, Status, desync, out_of_fuel, wait, implausible, yields,
  round, buffered, Fed, waiting, prepend, drain, feed,
}
use zwo_eaf_proxy.Capture.Stream.Chunks.{drain-next, Round-cases}
use zwo_eaf_proxy.Capture.Pcap.{PcapWriter, write}
use zwo_eaf_proxy.Capture.Pcap.ReadBack.{write_all}
use zwo_eaf_proxy.Capture.Session.Records.{
  packets_of, count_events, reported_of, packets_of-append, count_events-append, reported_of-append,
  write_all-append,
}
use zwo_eaf_proxy.Capture.Session.{
  Session, CallbackError, desync_error, callback_fuel, Called, and_then, done, raising, take_record,
  consume, take_chunk,
}

-- What the callback raises behind a run of the decoder
abbrev pub raised_of : Status → Option CallbackError
raised_of waiting = none
raised_of (desync n) = some (desync_error n)
raised_of out_of_fuel = some callback_fuel

module _ (f : Float) (X : Type 0) (watched : Bool) where
  -- A session took the records of a run of the decoder: it wrote the packets, counted, and reported the
  -- events.
  pub record Took (s : Session f X) (r : Fed) (s' : Session f X) : Type 0 where
    pub left : s'.decoder ≡ r.decoder
    pub wrote : write_all f (packets_of r.records) s.writer ≡ ok s'.writer
    pub packets : s'.packets ≡ s.packets + length (packets_of r.records)
    pub events : s'.events ≡ s.events + count_events r.records
    pub reported : s'.reported ≡ s.reported ++ reported_of watched r.records
    pub failure : s'.failure ≡ s.failure

  -- What a run leaves that took nothing
  pub nothing :
      (s : Session f X) (status : Status)
      → Took s (record { records = []; decoder = s.decoder; status = status }) s
  nothing s status = record {
    left = refl;
    wrote = refl;
    packets = omega arith;
    events = omega arith;
    reported = no_report watched;
    failure = refl;
  }
    where
      no_report : (watched : Bool) → s.reported ≡ s.reported ++ reported_of watched []
      no_report true = sym (append-nil s.reported)
      no_report false = sym (append-nil s.reported)

  -- One run behind another
  pub Took-prepend :
      (q r : Fed) (s t s' : Session f X)
      → Took s q t
      → Took t r s'
      → Took s (prepend q.records r) s'
  Took-prepend q r s t s' h k = record {
    left = k.left;
    wrote =
        ap (λ l. write_all f l s.writer) (packets_of-append q.records r.records)
        ∙ write_all-append f (packets_of q.records) (packets_of r.records) s.writer t.writer h.wrote
        ∙ k.wrote;
    packets = omega (
      arith,
      k.packets,
      h.packets,
      ap length (packets_of-append q.records r.records),
      length-append (packets_of q.records) (packets_of r.records),
    );
    events = omega (arith, k.events, h.events, count_events-append q.records r.records);
    reported =
        k.reported
        ∙ ap (λ l. l ++ reported_of watched r.records) h.reported
        ∙ append_assoc s.reported (reported_of watched q.records) (reported_of watched r.records)
        ∙ ap (λ l. s.reported ++ l) (sym (reported_of-append watched q.records r.records));
    failure = k.failure ∙ h.failure;
  }

  -- What the loop does after a round.
  unfoldable pub next_consume : Round → ℕ → Session f X → Called f X
  next_consume wait k s = done f X watched s
  next_consume (implausible n) k s = raising f X watched (desync_error n) s
  next_consume (yields r d) k s =
      and_then f X watched (take_record f X watched r (record s { decoder = d }))
        (consume f X watched k)

  pub consume-next :
      (k : ℕ) (s : Session f X) (o : Round)
      → round s.decoder ≡ o
      → consume f X watched (suc k) s ≡ next_consume o k s
  unfolding consume next_consume
  consume-next k s wait e = rw (e, consume)
  consume-next k s (implausible n) e = rw (e, consume)
  consume-next k s (yields r d) e = rw (e, consume)

  -- A single record, and what the decoder then is
  abbrev single : Captured → Decoder → Fed
  single r d = record { records = r ∷ []; decoder = d; status = waiting }

  -- A call of the callback took a run of the decoder, and raises what the run does.
  abbrev pub Takes : Session f X → Fed → Called f X → Type 0
  Takes s r c = Took s r c.session × (c.raised ≡ raised_of r.status)

  packet-Took :
      (t : ℕ) (b : Bytes) (s : Session f X) (d : Decoder) (w : PcapWriter f)
      → write f t b s.writer ≡ ok w
      → Took s
          (single (packet t b) d)
          (record s { decoder = d; writer = w; packets = s.packets + 1 })
  packet-Took t b s d w e = record {
    left = refl;
    wrote = rw e refl;
    packets = omega arith;
    events = omega arith;
    reported = no_report watched;
    failure = refl;
  }
    where
      no_report :
          (watched : Bool) → s.reported ≡ s.reported ++ reported_of watched (packet t b ∷ [])
      no_report true = sym (append-nil s.reported)
      no_report false = sym (append-nil s.reported)

  event-Took :
      (t c : ℕ) (s : Session f X) (d : Decoder)
      → Took s (single (event t c) d) (record s {
        decoder = d;
        events = s.events + 1;
        reported = if watched then s.reported ++ (event t c ∷ []) else s.reported;
      })
  event-Took t c s d = record {
    left = refl;
    wrote = refl;
    packets = omega arith;
    events = omega arith;
    reported = report watched;
    failure = refl;
  }
    where
      report :
          (watched : Bool)
          → (if watched then s.reported ++ (event t c ∷ []) else s.reported)
            ≡ s.reported ++ reported_of watched (event t c ∷ [])
      report true = refl
      report false = sym (append-nil s.reported)

  -- A record, and what the loop takes behind it
  record-Takes :
      (k : ℕ) (r : Captured) (d : Decoder) (s : Session f X) (w : PcapWriter f)
      → ((s : Session f X) (w : PcapWriter f)
          → write_all f (packets_of (drain k s.decoder).records) s.writer ≡ ok w
          → Takes s (drain k s.decoder) (consume f X watched k s))
      → write_all f (packets_of (r ∷ (drain k d).records)) s.writer ≡ ok w
      → Takes s (prepend (r ∷ []) (drain k d)) (
          and_then f X watched
            (take_record f X watched r (record s { decoder = d }))
            (consume f X watched k))
  unfolding take_record
  record-Takes k (packet t b) d s w behind h =
      let (u, (rest, first)) =
        returned_first (write_all f (packets_of (drain k d).records)) (write f t b s.writer) w h in
      let s1 = record s { decoder = d; writer = u; packets = s.packets + 1 } in
      let (took, raised) = behind s1 w rest in
      rw first (
        Took-prepend (single (packet t b) d) (drain k d) s s1 _ (packet-Took t b s d u first) took,
        raised,
      )
  record-Takes k (event t c) d s w behind h =
      let s1 = record s {
        decoder = d;
        events = s.events + 1;
        reported = if watched then s.reported ++ (event t c ∷ []) else s.reported;
      } in
      let (took, raised) = behind s1 w h in
      (Took-prepend (single (event t c) d) (drain k d) s s1 _ (event-Took t c s d) took, raised)

  -- The loop takes what the decoder makes of its buffer, if the packets of it can be written.
  consume-Takes :
      (k : ℕ) (s : Session f X) (w : PcapWriter f)
      → write_all f (packets_of (drain k s.decoder).records) s.writer ≡ ok w
      → Takes s (drain k s.decoder) (consume f X watched k s)
  unfolding next_consume
  consume-Takes zero s w h = unfold drain consume in (nothing s out_of_fuel, refl)
  consume-Takes (suc k) s w h = elim (Round-cases (round s.decoder)) [
    | inl o ↦ rw (drain-next k s.decoder wait o, consume-next k s wait o) (nothing s waiting, refl)
    | inr (inl (n, o)) ↦
        rw (drain-next k s.decoder (implausible n) o, consume-next k s (implausible n) o)
          (nothing s (desync n), refl)
    | inr (inr (r, d, o)) ↦
        let h' = rw (drain-next k s.decoder (yields r d) o) at h in
        rw (drain-next k s.decoder (yields r d) o, consume-next k s (yields r d) o)
          (record-Takes k r d s w (consume-Takes k) h')
  ]

  pub take_chunk-Takes :
      (chunk : Bytes) (s : Session f X) (w : PcapWriter f)
      → write_all f (packets_of (feed chunk s.decoder).records) s.writer ≡ ok w
      → Takes s (feed chunk s.decoder) (take_chunk f X watched chunk s)
  unfolding take_chunk feed
  take_chunk-Takes chunk s w h =
      let d = buffered chunk s.decoder in
      let (took, raised) = consume-Takes (suc (length d.buffer)) (record s { decoder = d }) w h in
      (
        record {
          left = took.left;
          wrote = took.wrote;
          packets = took.packets;
          events = took.events;
          reported = took.reported;
          failure = took.failure;
        },
        raised,
      )
