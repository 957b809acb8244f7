-- ===== src/Firmware/App/Answers.antt =====
-- The firmware answers every report of the host, whenever the loop runs in between.
use zwo_eaf_proxy.Base.{
  ℕ, ◌≤◌, ◌<◌, ◌≡◌, refl, true, Option, none, some, List, [], ◌∷◌, arith, All, ltb, Bool-cases, inl,
  inr,
}
use zwo_eaf_proxy.Base.Bytes.{Bytes, IsByte}
use zwo_eaf_proxy.Persona.Protocol.Encode.{IsBody}
use zwo_eaf_proxy.Firmware.Persona.{
  EafPersona, set_feature, get_feature, switch_pending, firmware_reply, get_report_cb, deliver,
}
use zwo_eaf_proxy.Firmware.Simulated.{simulated_focuser}
use zwo_eaf_proxy.Firmware.App.{App, Event, request, timer, timer_round, happen, run}
use zwo_eaf_proxy.Firmware.App.Sound.{
  IsSound, set-IsSound, switch_pending-IsSound, get_report_cb-answer, timer-IsSafe,
}

-- Reports of bytes
abbrev pub IsReport : Event → Type 0
IsReport (request (set_feature report_id buffer)) = All IsByte (report_id ∷ buffer)
IsReport (request (get_feature reqlen)) = Unit {0}
IsReport (timer now) = Unit {0}

-- An answer of fifteen bytes to a host with room for a report, and of none to another
abbrev pub Answered : Event → Option Bytes → Type 0
Answered (request (set_feature report_id buffer)) answer = answer ≡ none
Answered (request (get_feature reqlen)) answer =
    (reqlen < 16 → answer ≡ none)
    × (16 ≤ reqlen
        → (g : ℕ) × (body : Bytes) × (answer ≡ some (0x7e ∷ 0x5a ∷ g ∷ body))
          × (g < 256)
          × IsBody body)
Answered (timer now) answer = answer ≡ none

abbrev pub AllAnswered : List Event → List (Option Bytes) → Type 0
AllAnswered [] [] = Unit {0}
AllAnswered [] (r ∷ rs) = ⊥
AllAnswered (e ∷ es) [] = ⊥
AllAnswered (e ∷ es) (r ∷ rs) = Answered e r × AllAnswered es rs

get-Answered :
    (reqlen : ℕ) (p : EafPersona simulated_focuser)
    → IsSound p
    → Answered (request (get_feature reqlen)) (get_report_cb simulated_focuser reqlen p).0
      × IsSound (get_report_cb simulated_focuser reqlen p).1
unfolding get_report_cb firmware_reply
get-Answered reqlen p s =
    let (body, left) = switch_pending-IsSound p s in
    (
      (
        λ few. let e : ltb reqlen 16 ≡ true = ground arith in rw e refl,
        λ room. (
          p.pending,
          (switch_pending simulated_focuser p).0,
          get_report_cb-answer reqlen p room s,
          s.register,
          body,
        ),
      ),
      elim (Bool-cases (ltb reqlen 16)) [ inl e ↦ rw e s | inr e ↦ rw e left ],
    )

happen-Answered :
    (e : Event) (a : App)
    → IsReport e
    → IsSound a.persona
    → Answered e (happen e a).0 × IsSound (happen e a).1.persona
unfolding happen deliver timer_round
happen-Answered (request (set_feature report_id buffer)) a h s =
    (refl, set-IsSound report_id buffer a.persona h s)
happen-Answered (request (get_feature reqlen)) a h s = get-Answered reqlen a.persona s
happen-Answered (timer now) a h s = (
  refl,
  record {
    focuser = timer-IsSafe now a.last_us a.persona.focuser s.focuser;
    register = s.register;
    settings = s.settings;
    serial = s.serial;
    version = s.version;
  },
)

pub run-Answered :
    (es : List Event) (a : App)
    → All IsReport es
    → IsSound a.persona
    → AllAnswered es (run es a).0 × IsSound (run es a).1.persona
unfolding run
run-Answered [] a h s = (tt, s)
run-Answered (e ∷ es) a h s =
    let (answered, sound) = happen-Answered e a h.0 s in
    let (rest, left) = run-Answered es (happen e a).1 h.1 sound in ((answered, rest), left)
