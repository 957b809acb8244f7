-- ===== src/Firmware/App/Arrival.antt =====
-- A move of the firmware from the report of the host to the reading of its end.
use zwo_eaf_proxy.Base.{
  ℕ, suc, ◌+◌, ◌*◌, ◌^◌, ◌%◌, ◌≤◌, ◌<◌, ◌≡◌, refl, ap, ◌∙◌, Bool, true, false, some, List, [], ◌∷◌,
  arith, length, map, All, take, if◌then◌else◌,
}
use zwo_eaf_proxy.Base.Int.{ℤ, pos, ◌≤ℤ◌, ◌-ℤ◌, eqb_ℤ}
use zwo_eaf_proxy.Base.Bytes.{Bytes, IsByte}
use zwo_eaf_proxy.Focuser.{unsupported}
use zwo_eaf_proxy.Firmware.Protocol.{Command, k_write_state, parse_command, encode_state}
use zwo_eaf_proxy.Firmware.Persona.{
  EafPersona, set_feature, uint32, apply_command, set_report_cb, get_report_cb, deliver,
  switch_pending, state_reply_body,
}
use zwo_eaf_proxy.Firmware.Persona.Agree.{int32_small}
use zwo_eaf_proxy.Firmware.Simulated.{
  SimulatedFocuser, advance, times, magnitude, position, is_moving, simulated_focuser,
}
use zwo_eaf_proxy.Firmware.Main.{loop_round, loop_rounds}
use zwo_eaf_proxy.Firmware.Main.Loop.{Ascending, last_of}
use zwo_eaf_proxy.Firmware.Main.Arrival.{loop_rounds-arrives}
use zwo_eaf_proxy.Firmware.App.{App, request, timer, timer_round, happen, run}
use zwo_eaf_proxy.Firmware.App.Sound.{IsSound, get_report_cb-answer}
use zwo_eaf_proxy.Firmware.App.Answers.{IsReport, run-Answered}

-- The firmware with another focuser and reading
abbrev with_focuser : App → ℕ × SimulatedFocuser → App
with_focuser a (last, s) = record a { last_us = last; persona = record a.persona { focuser = s } }

run-timers :
    (readings : List ℕ) (a : App) (last : ℕ) (s : SimulatedFocuser)
    → (run (map timer readings) (with_focuser a (last, s))).1
      ≡ with_focuser a (loop_rounds advance readings (last, s))
unfolding run happen timer_round loop_rounds
run-timers [] a last s = refl
run-timers (now ∷ readings) a last s =
    let (last', s') = loop_round advance now (last, s) in run-timers readings a last' s'

timers-IsReport : (readings : List ℕ) → All IsReport (map timer readings)
timers-IsReport [] = tt
timers-IsReport (now ∷ readings) = (tt, timers-IsReport readings)

-- A report that decodes to a move to `n`
pub record Moves (n report_id : ℕ) (buffer : Bytes) : Type 0 where
  pub bytes : All IsByte (report_id ∷ buffer)
  pub kind : (parse_command (report_id ∷ take 15 buffer)).kind ≡ k_write_state
  pub go : (parse_command (report_id ∷ take 15 buffer)).go ≡ true
  pub position : (parse_command (report_id ∷ take 15 buffer)).position ≡ n
  pub small : n < 2 ^ 31

-- What a move leaves
apply_command-move :
    (n : ℕ) (c : Command) (p : EafPersona simulated_focuser)
    → c.kind ≡ k_write_state
    → c.go ≡ true
    → c.position ≡ n
    → n < 2 ^ 31
    → ((apply_command simulated_focuser c p).pending ≡ 3)
      × ((apply_command simulated_focuser c p).focuser ≡ record p.focuser { target = pos n })
unfolding apply_command
apply_command-move n c p k g e h = rw (k, g, e, int32_small n h) (refl, ground arith)

-- The temperature that a state reply reports
abbrev centi_of : EafPersona simulated_focuser → ℤ
centi_of p =
    if eqb_ℤ p.focuser.temperature_centi unsupported
    then p.fallback_temperature_centi
    else p.focuser.temperature_centi

encoded :
    (moving : Bool) (z : ℤ) (n : ℕ) (centi : ℤ) (settings : ℕ)
    → moving ≡ false
    → z ≡ pos n
    → n < 2 ^ 31
    → encode_state moving (uint32 z) centi settings ≡ encode_state false n centi settings
encoded moving z n centi settings h e k =
    let fits : n % 2 ^ 32 ≡ n = omega arith in rw (h, e, fits) refl

-- A persona whose focuser is at rest, and that names the state, answers with the position.
state-answer :
    (n reqlen : ℕ) (p : EafPersona simulated_focuser)
    → n < 2 ^ 31
    → 16 ≤ reqlen
    → IsSound p
    → p.pending ≡ 3
    → (position p.focuser).0 ≡ pos n
    → (is_moving p.focuser).0 ≡ false
    → (get_report_cb simulated_focuser reqlen p).0
      ≡ some (0x7e ∷ 0x5a ∷ 3 ∷ encode_state false n (centi_of p) p.settings)
unfolding switch_pending state_reply_body
state-answer n reqlen p h room s pending at still =
    get_report_cb-answer reqlen p room s
    ∙ rw pending
        (ap (λ t. some (0x7e ∷ 0x5a ∷ 3 ∷ t)) (encoded _ _ n (centi_of p) p.settings still at h))

-- The firmware behind a report and some rounds of the loop
abbrev pub moved : ℕ → Bytes → List ℕ → App → App
moved report_id buffer readings a =
    (run (request (set_feature report_id buffer) ∷ map timer readings) a).1

moved-run :
    (report_id : ℕ) (buffer : Bytes) (readings : List ℕ) (a : App)
    → let p = set_report_cb simulated_focuser report_id buffer a.persona in
      moved report_id buffer readings a
      ≡ with_focuser
          (record a { persona = p })
          (loop_rounds advance readings (a.last_us, p.focuser))
unfolding run happen deliver
moved-run report_id buffer readings a =
    let p = set_report_cb simulated_focuser report_id buffer a.persona in
    run-timers readings (record a { persona = p }) a.last_us p.focuser

-- From any sound state of the firmware, with a rate that is not negative: behind a report of bytes that
-- moves to `n`, below 2^31, and rounds of the loop over a timer that does not run backwards, with readings
-- less than 2^31 milliseconds apart, which goes on for the time that the way takes and one millisecond more
-- for each round, and one, the next GET_REPORT with room for a report answers that the focuser is at `n` and
-- does not move.
pub run-arrives :
    (n report_id reqlen r m : ℕ) (buffer : Bytes) (readings : List ℕ) (a : App)
    → IsSound a.persona
    → Moves n report_id buffer
    → a.persona.focuser.rate ≡ pos r
    → Ascending a.last_us readings
    → magnitude (times 1000 (pos n) -ℤ a.persona.focuser.position) ≤ℤ pos (m * r)
    → a.last_us + 1000 * (m + suc (length readings)) ≤ last_of a.last_us readings
    → 16 ≤ reqlen
    → let p = (moved report_id buffer readings a).persona in
      (get_report_cb simulated_focuser reqlen p).0
      ≡ some (0x7e ∷ 0x5a ∷ 3 ∷ encode_state false n (centi_of p) p.settings)
unfolding set_report_cb
run-arrives n report_id reqlen r m buffer readings a s w e asc way enough room =
    let (named, aimed) =
      apply_command-move n (parse_command (report_id ∷ take 15 buffer)) a.persona w.kind w.go
        w.position w.small in
    let same = moved-run report_id buffer readings a in
    let arrived =
      ap (λ b. b.persona.focuser) same
      ∙ ap (λ q. (loop_rounds advance readings (a.last_us, q)).1) aimed in
    let (at, still) =
      loop_rounds-arrives r m readings a.last_us (record a.persona.focuser { target = pos n }) e asc
        way enough in
    let sound =
      (run-Answered (request (set_feature report_id buffer) ∷ map timer readings) a
        (w.bytes, timers-IsReport readings) s).1 in
    state-answer n reqlen (moved report_id buffer readings a).persona w.small room sound
      (ap (λ b. b.persona.pending) same ∙ named) (ap (λ q. (position q).0) arrived ∙ at)
      (ap (λ q. (is_moving q).0) arrived ∙ still)
