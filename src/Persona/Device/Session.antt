-- ===== src/Persona/Device/Session.antt =====
-- What a session with the host leaves in the device: the register that it last named, the settings
-- byte that it last wrote, and nothing of the reports that are malformed.
use zwo_eaf_proxy.Base.{
  ℕ, ◌≡◌, refl, ap, ◌∙◌, false, Option, none, some, List, [], ◌∷◌, arith, if◌then◌else◌, length,
  Bool-cases, inl, inr,
}
use zwo_eaf_proxy.Base.Result.{Result, ok, err, ◌>>=◌, is_ok}
use zwo_eaf_proxy.Base.Bytes.{Bytes}
use zwo_eaf_proxy.Float.{Float}
use zwo_eaf_proxy.Focuser.{Focuser}
use zwo_eaf_proxy.Persona.Protocol.{
  ValueError, MalformedReport, Command, read_register, write_state, parse_command, frame_reply,
}
use zwo_eaf_proxy.Persona.Device.{
  Device, ack, Request, set_report, get_report, apply, apply_parsed, state_body, reply_body,
  current_reply, handle_set_report, handle_get_report, handle, serve, stored_settings,
}

-- The register that a report names: a read its argument, a state write the state register.
abbrev pub named_by : Result MalformedReport Command → ℕ → ℕ
named_by (err e) g = g
named_by (ok (read_register h)) g = h
named_by (ok (write_state w)) g = 3

-- The settings byte that a report carries, if it is a state write that is long enough.
abbrev pub settings_in : Result MalformedReport Command → ℕ → ℕ
settings_in (err e) s = s
settings_in (ok (read_register h)) s = s
settings_in (ok (write_state w)) s = elim w.settings [ none ↦ s | some t ↦ t ]

-- The last register named, and the last settings byte written, in a list of requests.
abbrev pub last_named : List Request → ℕ → ℕ
last_named [] g = g
last_named (set_report r ∷ qs) g = last_named qs (named_by (parse_command r) g)
last_named (get_report n ∷ qs) g = last_named qs g

abbrev pub last_settings : List Request → ℕ → ℕ
last_settings [] s = s
last_settings (set_report r ∷ qs) s = last_settings qs (settings_in (parse_command r) s)
last_settings (get_report n ∷ qs) s = last_settings qs s

-- The requests without the malformed reports.
abbrev pub understood : List Request → List Request
understood [] = []
understood (set_report r ∷ qs) =
    if is_ok (parse_command r) then set_report r ∷ understood qs else understood qs
understood (get_report n ∷ qs) = get_report n ∷ understood qs

stored_settings_lem :
    (n : Option ℕ) (s : ℕ) → stored_settings n s ≡ elim n [ none ↦ s | some t ↦ t ]
unfolding stored_settings
stored_settings_lem none s = refl
stored_settings_lem (some t) s = ground arith

module _ (f : Float) (o : Focuser) where
  apply_parsed-pending :
      (p : Result MalformedReport Command) (d : Device f o)
      → (apply_parsed f o p d).1.pending ≡ named_by p d.pending
  unfolding apply
  apply_parsed-pending (err e) d = refl
  apply_parsed-pending (ok (read_register g)) d = refl
  apply_parsed-pending (ok (write_state w)) d = refl

  apply_parsed-settings :
      (p : Result MalformedReport Command) (d : Device f o)
      → (apply_parsed f o p d).1.settings ≡ settings_in p d.settings
  unfolding apply
  apply_parsed-settings (err e) d = refl
  apply_parsed-settings (ok (read_register g)) d = refl
  apply_parsed-settings (ok (write_state w)) d = stored_settings_lem w.settings d.settings

  -- A reply changes nothing but the focuser.
  record SameBut (d e : Device f o) : Type 0 where
    pending : e.pending ≡ d.pending
    settings : e.settings ≡ d.settings
    version : e.firmware_version ≡ d.firmware_version
    serial : e.serial ≡ d.serial

  current_reply-SameBut : (d : Device f o) → SameBut d (current_reply f o d).1
  unfolding current_reply reply_body state_body
  current_reply-SameBut d = ground arith

  -- The device will answer for the register that the host named last.
  pub serve-pending :
      (qs : List Request) (d : Device f o) → (serve f o qs d).1.pending ≡ last_named qs d.pending
  unfolding serve handle handle_set_report handle_get_report
  serve-pending [] d = refl
  serve-pending (set_report r ∷ qs) d =
      serve-pending qs (apply_parsed f o (parse_command r) d).1
      ∙ ap (last_named qs) (apply_parsed-pending (parse_command r) d)
  serve-pending (get_report n ∷ qs) d =
      serve-pending qs (current_reply f o d).1
      ∙ ap (last_named qs) (current_reply-SameBut d).pending

  -- The device stores the settings byte that the host wrote last.
  pub serve-settings :
      (qs : List Request) (d : Device f o)
      → (serve f o qs d).1.settings ≡ last_settings qs d.settings
  unfolding serve handle handle_set_report handle_get_report
  serve-settings [] d = refl
  serve-settings (set_report r ∷ qs) d =
      serve-settings qs (apply_parsed f o (parse_command r) d).1
      ∙ ap (last_settings qs) (apply_parsed-settings (parse_command r) d)
  serve-settings (get_report n ∷ qs) d =
      serve-settings qs (current_reply f o d).1
      ∙ ap (last_settings qs) (current_reply-SameBut d).settings

  malformed_ignored :
      (p : Result MalformedReport Command) (d : Device f o)
      → is_ok p ≡ false
      → apply_parsed f o p d ≡ (ack, d)
  malformed_ignored (err e) d h = refl
  malformed_ignored (ok k) d h = cc

  -- A session ends in the same device when its malformed reports are left out.
  pub serve-understood :
      (qs : List Request) (d : Device f o) → (serve f o (understood qs) d).1 ≡ (serve f o qs d).1
  unfolding serve handle handle_set_report handle_get_report
  serve-understood [] d = refl
  serve-understood (set_report r ∷ qs) d = elim (Bool-cases (is_ok (parse_command r))) [
    | inl good ↦ rw good (serve-understood qs (apply_parsed f o (parse_command r) d).1)
    | inr bad ↦ rw (bad, malformed_ignored (parse_command r) d bad) (serve-understood qs d)
  ]
  serve-understood (get_report n ∷ qs) d = serve-understood qs (current_reply f o d).1

  frame_reply-shape :
      (register : ℕ) (body b : Bytes)
      → frame_reply register body ≡ ok b
      → (length body ≡ 12) × (b ≡ 1 ∷ 0x7e ∷ 0x5a ∷ register ∷ body)
  unfolding frame_reply
  frame_reply-shape register body b e = ground arith

  -- Whatever the requests before it, a reply is a report of sixteen bytes, 01 7E 5A, then the
  -- register that the host named last, then a body.
  pub reply_frame :
      (qs : List Request) (d : Device f o) (b : Bytes)
      → (current_reply f o (serve f o qs d).1).0 ≡ ok b
      → (body : Bytes) × (length body ≡ 12) × (b ≡ 1 ∷ 0x7e ∷ 0x5a ∷ last_named qs d.pending ∷ body)
  unfolding current_reply
  reply_frame qs d b e = framed (reply_body f o (serve f o qs d).1).0 e
    where
      framed :
          (r : Result ValueError Bytes)
          → (r >>= frame_reply (serve f o qs d).1.pending) ≡ ok b
          → (body : Bytes) × (length body ≡ 12)
            × (b ≡ 1 ∷ 0x7e ∷ 0x5a ∷ last_named qs d.pending ∷ body)
      framed (err x) e = cc
      framed (ok body) e =
          let (n, shape) = frame_reply-shape _ body b e in
          (body, n, rw (← serve-pending qs d) shape)
