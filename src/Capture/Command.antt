-- ===== src/Capture/Command.antt =====
-- host/src/zwoproxy/capture.py, `Event` and the name of a captured event; `Speed`, and the `capture`
-- command of host/src/zwoproxy/cli.py.
use zwo_eaf_proxy.Base.{
  ℕ, ◌≡◌, refl, ap, ◌∙◌, length, Bool, Option, none, some, List, [], ◌∷◌, ◌==◌, if◌then◌else◌,
}
use zwo_eaf_proxy.Base.Result.{Result, ok, ◌>>=◌}
use zwo_eaf_proxy.Float.{Float}
use zwo_eaf_proxy.Capture.Session.{Script, CaptureError, capture}
use zwo_eaf_proxy.Capture.Session.Records.{packets_of}
use zwo_eaf_proxy.Capture.Session.File.{Writable}
use zwo_eaf_proxy.Capture.Session.Returns.{IsSmooth, capture-returns}
use zwo_eaf_proxy.Capture.Session.Whole.{sent, capture-feed}
use zwo_eaf_proxy.Capture.Stream.{start, feed}

-- `class Event`, whose `NONE` is `no_event`
pub data Event : Type 0 where
  no_event capture_stop_normal capture_stop_full capture_stop_error capture_start_high
        capture_start_full capture_start_low capture_start_auto speed_detect_high speed_detect_full
        speed_detect_low speed_detect_auto linestate_se0 linestate_chirp_j linestate_chirp_k
        linestate_chirp_se1 linestate_ls_j linestate_ls_k linestate_fs_j linestate_fs_k
        linestate_se1 vbus_invalid vbus_valid ls_attach fs_attach bus_reset device_chirp_valid
        host_chirp_valid suspend resume ls_keepalive :
      Event

abbrev pub all_events : List Event
all_events =
    no_event ∷ capture_stop_normal ∷ capture_stop_full ∷ capture_stop_error ∷ capture_start_high
    ∷ capture_start_full ∷ capture_start_low ∷ capture_start_auto ∷ speed_detect_high
    ∷ speed_detect_full ∷ speed_detect_low ∷ speed_detect_auto ∷ linestate_se0 ∷ linestate_chirp_j
    ∷ linestate_chirp_k ∷ linestate_chirp_se1 ∷ linestate_ls_j ∷ linestate_ls_k ∷ linestate_fs_j
    ∷ linestate_fs_k ∷ linestate_se1 ∷ vbus_invalid ∷ vbus_valid ∷ ls_attach ∷ fs_attach ∷ bus_reset
    ∷ device_chirp_valid ∷ host_chirp_valid ∷ suspend ∷ resume ∷ ls_keepalive ∷ []

-- The value of a member
abbrev pub event_value : Event → ℕ
event_value no_event = 0
event_value capture_stop_normal = 1
event_value capture_stop_full = 2
event_value capture_stop_error = 3
event_value capture_start_high = 4
event_value capture_start_full = 5
event_value capture_start_low = 6
event_value capture_start_auto = 7
event_value speed_detect_high = 8
event_value speed_detect_full = 9
event_value speed_detect_low = 10
event_value speed_detect_auto = 11
event_value linestate_se0 = 12
event_value linestate_chirp_j = 13
event_value linestate_chirp_k = 14
event_value linestate_chirp_se1 = 15
event_value linestate_ls_j = 16
event_value linestate_ls_k = 17
event_value linestate_fs_j = 18
event_value linestate_fs_k = 19
event_value linestate_se1 = 20
event_value vbus_invalid = 21
event_value vbus_valid = 22
event_value ls_attach = 23
event_value fs_attach = 24
event_value bus_reset = 25
event_value device_chirp_valid = 26
event_value host_chirp_valid = 27
event_value suspend = 28
event_value resume = 29
event_value ls_keepalive = 30

-- The member with a value among some, as `Event(code)` looks it up
abbrev pub find_event : ℕ → List Event → Option Event
find_event code [] = none
find_event code (e ∷ es) = if event_value e == code then some e else find_event code es

-- The name of a captured event: that of the member, or `UNKNOWN_` with the code.
pub data EventName : Type 0 where
  known : Event → EventName
  unknown : ℕ → EventName

unfoldable pub event_name : ℕ → EventName
event_name code = elim (find_event code all_events) [ none ↦ unknown code | some e ↦ known e ]

-- `class Speed`
pub data Speed : Type 0 where
  high full low auto : Speed

abbrev pub speed_value : Speed → ℕ
speed_value high = 0
speed_value full = 1
speed_value low = 2
speed_value auto = 3

-- `_capture`, the command: it fails if no packet was captured. Events are reported.
unfoldable pub capture_command :
    (f : Float) (X : Type 0) → Speed → Script f X → Result (CaptureError X) ℕ
capture_command f X speed e =
    (capture f X Bool.true (speed_value speed) e).1 >>= (λ s. ok (if s.packets == 0 then 1 else 0))

-- The members have different values.
event_name-value : (e : Event) → event_name (event_value e) ≡ known e
unfolding event_name
event_name-value no_event = refl
event_name-value capture_stop_normal = refl
event_name-value capture_stop_full = refl
event_name-value capture_stop_error = refl
event_name-value capture_start_high = refl
event_name-value capture_start_full = refl
event_name-value capture_start_low = refl
event_name-value capture_start_auto = refl
event_name-value speed_detect_high = refl
event_name-value speed_detect_full = refl
event_name-value speed_detect_low = refl
event_name-value speed_detect_auto = refl
event_name-value linestate_se0 = refl
event_name-value linestate_chirp_j = refl
event_name-value linestate_chirp_k = refl
event_name-value linestate_chirp_se1 = refl
event_name-value linestate_ls_j = refl
event_name-value linestate_ls_k = refl
event_name-value linestate_fs_j = refl
event_name-value linestate_fs_k = refl
event_name-value linestate_se1 = refl
event_name-value vbus_invalid = refl
event_name-value vbus_valid = refl
event_name-value ls_attach = refl
event_name-value fs_attach = refl
event_name-value bus_reset = refl
event_name-value device_chirp_valid = refl
event_name-value host_chirp_valid = refl
event_name-value suspend = refl
event_name-value resume = refl
event_name-value ls_keepalive = refl

-- Over transfers that can be submitted again up to the stop, with packets whose times fit the fields of the
-- file, the command returns, also where the callback raises; its status says whether the analyzer sent a
-- packet: 0 if the decoder makes one at least of all the bytes of the transfers, and 1 if it makes none.
pub capture_command_status :
    (f : Float) (X : Type 0) (speed : Speed) (e : Script f X)
    → IsSmooth f X e
    → Writable f X Bool.true e.started (sent f X Bool.true e)
    → capture_command f X speed e
      ≡ ok (if length (packets_of (feed (sent f X Bool.true e) start).records) == 0 then 1 else 0)
unfolding capture_command
capture_command_status f X speed e smooth fits =
    let (s, returned) = capture-returns f X Bool.true (speed_value speed) e smooth in
    let (file, count, events, waits) =
      capture-feed f X Bool.true (speed_value speed) e s returned fits in
    ap (λ r. r >>= (λ s. ok (if s.packets == 0 then 1 else 0))) returned
    ∙ ap (λ k. ok (if k == 0 then 1 else 0)) count
