-- ===== src/Capture/Tests.antt =====
-- Runs of the stream decoder, and the theorems at concrete inputs.
use zwo_eaf_proxy.Base.{ℕ, ◌≡◌, some, refl, List, [], ◌∷◌, ◌++◌, arith}
use zwo_eaf_proxy.Base.Int.{pos}
use zwo_eaf_proxy.Base.Result.{ok}
use zwo_eaf_proxy.Float.FixedPoint.{fixed_point}
use zwo_eaf_proxy.Capture.Pcap.{
  global_header, PcapWriter, open_writer, write, when, micros, pack_u32,
}
use zwo_eaf_proxy.Capture.Pcap.ReadBack.{read_pcap, write_all, read_pcap-write_all}
use zwo_eaf_proxy.Base.Bytes.{Bytes}
use zwo_eaf_proxy.Capture.Stream.{
  Captured, packet, event, start, packet_round, round, drain, feed, waiting, desync,
}
use zwo_eaf_proxy.Capture.Stream.Chunks.{feed-append, then_feed}
use zwo_eaf_proxy.Capture.Stream.Order.{IsSound, Ordered, clock, feed-Ordered}
use zwo_eaf_proxy.Capture.Stream.RoundTrip.{stream, feed-stream, Decodes}

-- A capture that starts at second 5, of a packet at 1.5 seconds.
abbrev packets : List (ℕ × Bytes)
packets = (90_000_000, 0xa5 ∷ 1 ∷ 2 ∷ []) ∷ []

abbrev written : Bytes
written =
    global_header
    ++ (6 ∷ 0 ∷ 0 ∷ 0 ∷ 0x20 ∷ 0xa1 ∷ 7 ∷ 0 ∷ 3 ∷ 0 ∷ 0 ∷ 0 ∷ 3 ∷ 0 ∷ 0 ∷ 0 ∷ 0xa5 ∷ 1 ∷ 2 ∷ [])

abbrev closed : PcapWriter fixed_point
closed = record { file = written; start_time = pos 500 }

write_packets : write_all fixed_point packets (open_writer fixed_point (pos 500)) ≡ ok closed
unfolding open_writer write when micros pack_u32
write_packets = refl

read_pcap-write_all_example : read_pcap written ≡ some ((0xa5 ∷ 1 ∷ 2 ∷ []) ∷ [])
read_pcap-write_all_example = read_pcap-write_all fixed_point (pos 500) packets closed write_packets

-- A start event, a packet of three bytes with its padding, and one after a wrap of the clock.
abbrev records : List Captured
records = event 40000 5 ∷ packet 60000 (0xa5 ∷ 1 ∷ 2 ∷ []) ∷ packet 70000 (0xd2 ∷ []) ∷ []

abbrev cut : Bytes
cut = 0xFF ∷ 5 ∷ 0x9c ∷ 0x40 ∷ 0 ∷ 3 ∷ []

feed-cut : feed cut start ≡ record {
  records = event 40000 5 ∷ [];
  decoder = record { buffer = 0 ∷ 3 ∷ []; epoch = 0; last_raw = 40000 };
  status = waiting;
}
unfolding feed drain round packet_round
feed-cut = refl

feed_desync : (feed (5 ∷ 0 ∷ 0 ∷ 0 ∷ []) start).status ≡ desync 1280
unfolding feed drain round packet_round
feed_desync = refl

feed-append_example : feed (cut ++ (0 ∷ 7 ∷ [])) start ≡ then_feed (0 ∷ 7 ∷ []) (feed cut start)
feed-append_example = feed-append cut (0 ∷ 7 ∷ []) start

feed-stream_example : Decodes records (feed (stream records) start)
feed-stream_example = feed-stream 0 records start refl (omega arith) (omega arith)

-- A record before and one behind a wrap of the clock
feed-Ordered_example :
    Ordered 40000
      (feed (stream records) (record start { last_raw = 40000 })).records
      (clock (feed (stream records) (record start { last_raw = 40000 })).decoder)
    × IsSound (feed (stream records) (record start { last_raw = 40000 })).decoder
feed-Ordered_example =
    feed-Ordered (stream records) (record start { last_raw = 40000 })
      (record { bytes = omega arith; raw = omega arith }) (omega arith)
