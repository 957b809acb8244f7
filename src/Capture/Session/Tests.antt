-- ===== src/Capture/Session/Tests.antt =====
-- Sessions at concrete scripts.
use zwo_eaf_proxy.Base.{
  ℕ, ◌≡◌, ◌≢◌, refl, true, none, some, inr, [], ◌∷◌, ◌++◌, ◌==◌, length, if◌then◌else◌,
}
use zwo_eaf_proxy.Base.Int.{pos}
use zwo_eaf_proxy.Base.Result.{ok, err}
use zwo_eaf_proxy.Base.Bytes.{Bytes}
use zwo_eaf_proxy.Float.FixedPoint.{fixed_point}
use zwo_eaf_proxy.Capture.Stream.{start, feed, event, drain, round, packet_round}
use zwo_eaf_proxy.Capture.Pcap.{global_header, open_writer, write, when, micros, pack_u32}
use zwo_eaf_proxy.Capture.Session.{
  Session, Delivery, completed, timed_out, Script, transfer_failed, loop_fuel, take_record, consume,
  take_chunk, on_transfer, handle_events, listen, wind_down, capture, set_state, claim_interface,
  release_interface, close_handle,
}
use zwo_eaf_proxy.Capture.Session.File.{Writable}
use zwo_eaf_proxy.Capture.Session.Returns.{IsSmooth, capture-returns}
use zwo_eaf_proxy.Capture.Session.Whole.{IsWritten, sent, capture-feed}
use zwo_eaf_proxy.Capture.Session.Records.{packets_of}
use zwo_eaf_proxy.Capture.Session.Ends.{capture-ends}
use zwo_eaf_proxy.Capture.Command.{auto, capture_command, capture_command_status}

abbrev transfer : Bytes → Delivery ℕ
transfer b = record { status = completed; received = b; resubmit = none }

-- A start event and a packet, cut inside the packet, and a second packet behind the stop.
abbrev script : Script fixed_point ℕ
script = record {
  found = true;
  claim = none;
  begin = none;
  started = pos 500;
  running =
      (transfer (0xFF ∷ 7 ∷ 0 ∷ 5 ∷ 0 ∷ 3 ∷ []) ∷ [])
      ∷ (transfer (0 ∷ 9 ∷ 0xa5 ∷ 1 ∷ 2 ∷ 0 ∷ []) ∷ [])
      ∷ [];
  stopping = (transfer (0 ∷ 1 ∷ 0 ∷ 12 ∷ 0xd2 ∷ 0 ∷ []) ∷ []) ∷ [];
}

-- The analyzer is unplugged: the first transfer cannot be submitted again.
abbrev unplugged : Script fixed_point ℕ
unplugged = record script {
  running = (record { status = timed_out; received = []; resubmit = some 19 } ∷ []) ∷ [];
}

capture-unplugged : capture fixed_point ℕ true 3 unplugged ≡ (
  claim_interface ∷ set_state 0 ∷ set_state 7 ∷ set_state 0 ∷ release_interface ∷ close_handle ∷ [],
  err (transfer_failed 19),
)
unfolding capture listen wind_down handle_events on_transfer take_chunk consume take_record round
    packet_round open_writer write when micros pack_u32
capture-unplugged = refl

abbrev result : Session fixed_point ℕ
result = record {
  decoder = record { buffer = []; epoch = 0; last_raw = 12 };
  writer = record {
    file =
        global_header
        ++ (5 ∷ 0 ∷ 0 ∷ 0 ∷ 0 ∷ 0 ∷ 0 ∷ 0 ∷ 3 ∷ 0 ∷ 0 ∷ 0 ∷ 3 ∷ 0 ∷ 0 ∷ 0 ∷ 165 ∷ 1 ∷ 2 ∷ [])
        ++ (5 ∷ 0 ∷ 0 ∷ 0 ∷ 0 ∷ 0 ∷ 0 ∷ 0 ∷ 1 ∷ 0 ∷ 0 ∷ 0 ∷ 1 ∷ 0 ∷ 0 ∷ 0 ∷ 210 ∷ []);
    start_time = pos 500;
  };
  packets = 2;
  events = 1;
  reported = event 5 7 ∷ [];
  failure = [];
}

result_lem : (capture fixed_point ℕ true 3 script).1 ≡ ok result
unfolding capture listen wind_down handle_events on_transfer take_chunk consume take_record round
    packet_round open_writer write when micros pack_u32
result_lem = refl

-- The same, and between its transfers the callback raises, since a length is implausible. That transfer is
-- not submitted again, and the session goes on with what is left of the others.
abbrev desynced : Script fixed_point ℕ
desynced = record script {
  running =
      (transfer (0xFF ∷ 7 ∷ 0 ∷ 5 ∷ 0 ∷ 3 ∷ []) ∷ [])
      ∷ (transfer (0 ∷ 9 ∷ 0xa5 ∷ 1 ∷ 2 ∷ 0 ∷ 32 ∷ 0 ∷ 0 ∷ 10 ∷ []) ∷ [])
      ∷ (transfer (0 ∷ 1 ∷ 0 ∷ 11 ∷ 0xd2 ∷ 0 ∷ []) ∷ [])
      ∷ [];
}

abbrev desynced_result : Session fixed_point ℕ
desynced_result = record {
  decoder = record {
    buffer = 32 ∷ 0 ∷ 0 ∷ 10 ∷ 0 ∷ 1 ∷ 0 ∷ 11 ∷ 0xd2 ∷ 0 ∷ 0 ∷ 1 ∷ 0 ∷ 12 ∷ 0xd2 ∷ 0 ∷ [];
    epoch = 0;
    last_raw = 9;
  };
  writer = record {
    file =
        global_header
        ++ (5 ∷ 0 ∷ 0 ∷ 0 ∷ 0 ∷ 0 ∷ 0 ∷ 0 ∷ 3 ∷ 0 ∷ 0 ∷ 0 ∷ 3 ∷ 0 ∷ 0 ∷ 0 ∷ 165 ∷ 1 ∷ 2 ∷ []);
    start_time = pos 500;
  };
  packets = 1;
  events = 1;
  reported = event 5 7 ∷ [];
  failure = [];
}

desynced_result_lem : (capture fixed_point ℕ true 3 desynced).1 ≡ ok desynced_result
unfolding capture listen wind_down handle_events on_transfer take_chunk consume take_record round
    packet_round open_writer write when micros pack_u32
desynced_result_lem = refl

desynced-Writable : Writable fixed_point ℕ true desynced.started (sent fixed_point ℕ true desynced)
unfolding feed drain round packet_round open_writer write when micros pack_u32
desynced-Writable = (desynced_result.writer, refl)

desynced-IsSmooth : IsSmooth fixed_point ℕ desynced
desynced-IsSmooth = record {
  found = refl;
  claim = refl;
  begin = refl;
  resubmit = ((inr refl, tt), ((inr refl, tt), ((inr refl, tt), tt)));
}

capture-feed_example :
    IsWritten fixed_point ℕ true (sent fixed_point ℕ true desynced) desynced_result
capture-feed_example =
    capture-feed fixed_point ℕ true 3 desynced desynced_result desynced_result_lem desynced-Writable

capture-ends_example : (capture fixed_point ℕ true 3 script).1 ≢ err loop_fuel
capture-ends_example = capture-ends fixed_point ℕ true 3 script

command_lem : capture_command fixed_point ℕ auto desynced ≡ ok 0
unfolding capture_command capture listen wind_down handle_events on_transfer take_chunk consume
    take_record round packet_round open_writer write when micros pack_u32
command_lem = refl

capture_command_status_example :
    capture_command fixed_point ℕ auto desynced
    ≡ ok (
        if length (packets_of (feed (sent fixed_point ℕ true desynced) start).records) == 0
        then 1
        else 0)
capture_command_status_example =
    capture_command_status fixed_point ℕ auto desynced desynced-IsSmooth desynced-Writable

capture-returns_example :
    (s : Session fixed_point ℕ) × ((capture fixed_point ℕ true 3 desynced).1 ≡ ok s)
capture-returns_example = capture-returns fixed_point ℕ true 3 desynced desynced-IsSmooth
