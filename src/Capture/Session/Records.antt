-- ===== src/Capture/Session/Records.antt =====
-- The records of a capture sorted for its callback: packets for the file, events for `on_event`.
use zwo_eaf_proxy.Base.{
  ℕ, suc, ◌+◌, ◌≡◌, refl, ap, Bool, true, false, if◌then◌else◌, List, [], ◌∷◌, ◌++◌, arith,
}
use zwo_eaf_proxy.Base.Result.{ok, returned_first, ok_value}
use zwo_eaf_proxy.Base.Bytes.{Bytes}
use zwo_eaf_proxy.Float.{Float}
use zwo_eaf_proxy.Capture.Stream.{Captured, packet, event}
use zwo_eaf_proxy.Capture.Pcap.{PcapWriter, write}
use zwo_eaf_proxy.Capture.Pcap.ReadBack.{write_all}

-- The packets of some records, each a timestamp and data, and the number of the events.
abbrev pub packets_of : List Captured → List (ℕ × Bytes)
packets_of [] = []
packets_of (packet t b ∷ rs) = (t, b) ∷ packets_of rs
packets_of (event t c ∷ rs) = packets_of rs

abbrev pub count_events : List Captured → ℕ
count_events [] = 0
count_events (packet t b ∷ rs) = count_events rs
count_events (event t c ∷ rs) = suc (count_events rs)

pub packets_of-append : (a b : List Captured) → packets_of (a ++ b) ≡ packets_of a ++ packets_of b
packets_of-append [] b = refl
packets_of-append (packet t c ∷ a) b = ap (λ l. (t, c) ∷ l) (packets_of-append a b)
packets_of-append (event t c ∷ a) b = packets_of-append a b

pub count_events-append :
    (a b : List Captured) → count_events (a ++ b) ≡ count_events a + count_events b
count_events-append [] b = omega arith
count_events-append (packet t c ∷ a) b = count_events-append a b
count_events-append (event t c ∷ a) b = omega (arith, count_events-append a b)

-- The events, for `on_event`
abbrev pub events_of : List Captured → List Captured
events_of [] = []
events_of (packet t b ∷ rs) = events_of rs
events_of (event t c ∷ rs) = event t c ∷ events_of rs

abbrev pub reported_of : Bool → List Captured → List Captured
reported_of watched rs = if watched then events_of rs else []

events_of-append : (a b : List Captured) → events_of (a ++ b) ≡ events_of a ++ events_of b
events_of-append [] b = refl
events_of-append (packet t c ∷ a) b = events_of-append a b
events_of-append (event t c ∷ a) b = ap (λ l. event t c ∷ l) (events_of-append a b)

pub reported_of-append :
    (watched : Bool) (a b : List Captured)
    → reported_of watched (a ++ b) ≡ reported_of watched a ++ reported_of watched b
reported_of-append true a b = events_of-append a b
reported_of-append false a b = refl

-- Packets written in two parts.
pub write_all-append :
    (f : Float) (a b : List (ℕ × Bytes)) (w v : PcapWriter f)
    → write_all f a w ≡ ok v
    → write_all f (a ++ b) w ≡ write_all f b v
write_all-append f [] b w v e = ap (write_all f b) (ok_value w v e)
write_all-append f ((t, c) ∷ a) b w v e =
    let (u, (rest, first)) = returned_first (write_all f a) (write f t c w) v e in
    rw first (write_all-append f a b u v rest)
