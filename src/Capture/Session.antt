-- ===== src/Capture/Session.antt =====
-- host/src/zwoproxy/capture.py, `capture`: a session with the analyzer. What the USB library and the
-- clock do is a script of the session: the transfers that complete in each call of
-- `handleEventsTimeout`, up to the end of the time or Ctrl-C, and those behind the stop.
pub mod Records
pub mod Pump
pub mod File
pub mod Whole
pub mod Ends
pub mod Returns
mod Tests
use zwo_eaf_proxy.Base.{
  ℕ, zero, suc, ◌+◌, ◌*◌, Bool, true, false, Option, none, some, List, [], ◌∷◌, ◌++◌, length,
  if◌then◌else◌,
}
use zwo_eaf_proxy.Base.Result.{Result, ok, err, ◌>>=◌}
use zwo_eaf_proxy.Base.Bytes.{Bytes}
use zwo_eaf_proxy.Float.{Float}
use zwo_eaf_proxy.Capture.Stream.{
  Captured, packet, event, Decoder, start, Round, wait, implausible, yields, round, buffered,
}
use zwo_eaf_proxy.Capture.Pcap.{PcapWriter, PackError, open_writer, write}

-- `transfer.getStatus()`: the two that carry data, and the others.
pub data TransferStatus : Type 0 where
  completed timed_out other_status : TransferStatus

-- What the callback raises: `StreamDesyncError` or `struct.error`. `callback_fuel` is the model's own.
pub data CallbackError : Type 0 where
  desync_error : ℕ → CallbackError
  pack_error : PackError → CallbackError
  callback_fuel : CallbackError

-- What ends a session with an exception, for the exceptions `X` of the USB library and of `open`; what the
-- callback raises does not. `loop_fuel` is the model's own.
pub data CaptureError (X : Type 0) : Type 0 where
  no_analyzer : CaptureError X
  cannot_claim : X → CaptureError X
  not_started : X → CaptureError X
  transfer_failed : X → CaptureError X
  loop_fuel : CaptureError X

-- A transfer that completed or timed out has data.
abbrev pub has_data : TransferStatus → Bool
has_data completed = true
has_data timed_out = true
has_data other_status = false

-- Whether there was a failure.
abbrev pub has_failed : {X : Type 0} → List X → Bool
has_failed [] = false
has_failed (x ∷ xs) = true

-- A transfer that is handed to the callback: its status, the bytes of the buffer up to the actual
-- length, and the exception that a new submission of it raises, if any.
pub record Delivery (X : Type 0) : Type 0 where
  pub status : TransferStatus
  pub received : Bytes
  pub resubmit : Option X

-- The variables of `capture` that the callback changes; `reported` are the calls of `on_event`.
pub record Session (f : Float) (X : Type 0) : Type 0 where
  pub decoder : Decoder
  pub writer : PcapWriter f
  pub packets : ℕ
  pub events : ℕ
  pub reported : List Captured
  pub failure : List X

-- What a call of the callback leaves, and what it raised, if anything.
pub record Called (f : Float) (X : Type 0) : Type 0 where
  pub session : Session f X
  pub raised : Option CallbackError

module _ (f : Float) (X : Type 0) (watched : Bool) where
  abbrev pub done : Session f X → Called f X
  done s = record { session = s; raised = none }

  abbrev pub raising : CallbackError → Session f X → Called f X
  raising e s = record { session = s; raised = some e }

  -- What follows, where nothing was raised
  abbrev pub resume : Option CallbackError → Session f X → (Session f X → Called f X) → Called f X
  resume none s k = k s
  resume (some e) s k = raising e s

  abbrev pub and_then : Called f X → (Session f X → Called f X) → Called f X
  and_then c k = resume c.raised c.session k

  -- A packet is counted when it is written.
  abbrev pub count_packet : Session f X → Result PackError (PcapWriter f) → Called f X
  count_packet s (err e) = raising (pack_error e) s
  count_packet s (ok w) = done (record s { writer = w; packets = s.packets + 1 })

  -- The body of the loop over the records; `watched` says that `on_event` is given.
  unfoldable pub take_record : Captured → Session f X → Called f X
  take_record (packet t b) s = count_packet s (write f t b s.writer)
  take_record (event t c) s = done (record s {
    events = s.events + 1;
    reported = if watched then s.reported ++ (event t c ∷ []) else s.reported;
  })

  -- `for record in decoder.feed(...)`: each record is handled before the decoder goes on.
  unfoldable pub consume : ℕ → Session f X → Called f X
  consume zero s = raising callback_fuel s
  consume (suc k) s = elim (round s.decoder) [
    | wait ↦ done s
    | implausible n ↦ raising (desync_error n) s
    | yields r d ↦ and_then (take_record r (record s { decoder = d })) (consume k)
  ]

  -- The loop on a chunk; a round takes four bytes at least.
  unfoldable pub take_chunk : Bytes → Session f X → Called f X
  take_chunk chunk s =
      let d = buffered chunk s.decoder in consume (suc (length d.buffer)) (record s { decoder = d })

  -- `failure.append(exc)`
  abbrev pub resubmitted : Option X → Session f X → Session f X
  resubmitted none s = s
  resubmitted (some x) s = record s { failure = s.failure ++ (x ∷ []) }

  -- `on_transfer`, with the value of `running`. Where it raises, the transfer is not submitted again.
  unfoldable pub on_transfer : Bool → Delivery X → Session f X → Called f X
  on_transfer running t s =
      if has_data t.status
      then and_then (take_chunk t.received s)
          (λ s'. done (if running then resubmitted t.resubmit s' else s'))
      else done s

  -- The library calls the callback from C, through `ctypes`, which prints what a callback raises and drops
  -- it; the session goes on. The model's own end is kept.
  abbrev pub dropped : Option CallbackError → Session f X → Result (CaptureError X) (Session f X)
  dropped (some callback_fuel) s = err loop_fuel
  dropped (some (desync_error n)) s = ok s
  dropped (some (pack_error e)) s = ok s
  dropped none s = ok s

  -- One call of `handleEventsTimeout`, in which some transfers complete.
  unfoldable pub handle_events :
      Bool → List (Delivery X) → Session f X → Result (CaptureError X) (Session f X)
  handle_events running [] s = ok s
  handle_events running (t ∷ ts) s =
      let c = on_transfer running t s in dropped c.raised c.session >>= handle_events running ts

  -- The main loop, up to the end of the time, Ctrl-C, or a failure.
  unfoldable pub listen :
      List (List (Delivery X)) → Session f X → Result (CaptureError X) (Session f X)
  listen [] s = ok s
  listen (b ∷ bs) s =
      handle_events true b s >>= (λ s'. if has_failed s'.failure then ok s' else listen bs s')

  -- The loop behind the stop, while cancelled transfers come in.
  unfoldable pub wind_down :
      List (List (Delivery X)) → Session f X → Result (CaptureError X) (Session f X)
  wind_down [] s = ok s
  wind_down (b ∷ bs) s = handle_events false b s >>= wind_down bs

  -- The variables before the first transfer.
  abbrev pub opened : f.F → Session f X
  opened started = record {
    decoder = start;
    writer = open_writer f started;
    packets = 0;
    events = 0;
    reported = [];
    failure = [];
  }

-- The control requests of a session, as far as the analyzer sees them.
pub data Call : Type 0 where
  claim_interface release_interface close_handle : Call
  set_state : ℕ → Call

-- What happens to a session from outside: the analyzer is there, it can be claimed, the capture can
-- be started (the file opened, the transfers submitted), the time, and the transfers.
pub record Script (f : Float) (X : Type 0) : Type 0 where
  pub found : Bool
  pub claim : Option X
  pub begin : Option X
  pub started : f.F
  pub running : List (List (Delivery X))
  pub stopping : List (List (Delivery X))

-- `STATE_ENABLE | (int(speed) << 1)`
abbrev pub enable_state : ℕ → ℕ
enable_state speed = 1 + speed * 2

module _ (f : Float) (X : Type 0) (watched : Bool) where
  -- The body behind `PcapWriter(...)` and the submission of the transfers.
  abbrev pub begun : Option X → Script f X → Result (CaptureError X) (Session f X)
  begun (some x) e = err (not_started x)
  begun none e =
      listen f X watched e.running (opened f X watched e.started)
      >>= wind_down f X watched e.stopping

  -- `raise failure[0]`, or the result
  abbrev pub finish : Session f X → List X → Result (CaptureError X) (Session f X)
  finish s [] = ok s
  finish s (x ∷ xs) = err (transfer_failed x)

  -- Behind `claimInterface`. The `finally` block sends its three requests whatever the end.
  abbrev pub claimed : Option X → ℕ → Script f X → List Call × Result (CaptureError X) (Session f X)
  claimed (some x) speed e = (claim_interface ∷ [], err (cannot_claim x))
  claimed none speed e = (
    claim_interface
        ∷ set_state 0
        ∷ set_state (enable_state speed)
        ∷ set_state 0
        ∷ release_interface
        ∷ close_handle
        ∷ [],
    begun e.begin e >>= (λ s. finish s s.failure),
  )

  -- `capture`: its control requests, and the session whose counts it returns.
  unfoldable pub capture : ℕ → Script f X → List Call × Result (CaptureError X) (Session f X)
  capture speed e = if e.found then claimed e.claim speed e else ([], err no_analyzer)
