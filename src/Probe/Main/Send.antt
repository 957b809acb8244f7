-- ===== src/Probe/Main/Send.antt =====
-- The commands of `--send`, as they are written to the port.
use zwo_eaf_proxy.Base.{
  ℕ, ◌≡◌, ◌⊎◌, refl, sym, ap, ◌∙◌, Bool-cases, inl, inr, List, [], ◌∷◌, ◌++◌, map, append_assoc,
  append-nil, arith,
}
use zwo_eaf_proxy.Base.Result.{Result, ok, err}
use zwo_eaf_proxy.Base.Bytes.{Bytes}
use zwo_eaf_proxy.Float.{Float}
use zwo_eaf_proxy.Text.{Text, all_chars, strip}
use zwo_eaf_proxy.Pinefeat.{terminator, is_ascii, frame, not_ascii}
use zwo_eaf_proxy.Probe.{Os, ProbeError, link_error, after}
use zwo_eaf_proxy.Probe.Port.{ask}
use zwo_eaf_proxy.Probe.Bench.Quiet.{traced, reply-Silent}
use zwo_eaf_proxy.Probe.Figures.{Maths}
use zwo_eaf_proxy.Probe.Main.{without_timeout, send_one, send_all}

-- The line of a command of `--send`.
abbrev pub line_of : Text → Bytes
line_of command = strip command ++ terminator

module _ (f : Float) (o : Os f) (m : Maths f) (rounds : ℕ) (wait : f.F) where
  ask-log :
      (command : Text) (s : o.State × List Bytes)
      → ((ask f (traced f o) command wait s).1.1 ≡ s.1 ++ ((command ++ terminator) ∷ []))
        ⊎ ((ask f (traced f o) command wait s).0 ≡ err (link_error not_ascii))
  unfolding ask frame
  ask-log command s = elim (Bool-cases (all_chars is_ascii (command ++ terminator))) [
    | inl e ↦ inl (
        rw e (
          reply-Silent f o wait
            (o.write (command ++ terminator) s.0, s.1 ++ ((command ++ terminator) ∷ []))))
    | inr e ↦ inr (rw e refl)
  ]

  without_timeout_state :
      (r : Result ProbeError Text × (o.State × List Bytes))
      → (without_timeout f (traced f o) m rounds r).1 ≡ r.1
  without_timeout_state r = ground arith

  without_timeout_raises :
      (r : Result ProbeError Text × (o.State × List Bytes))
      → r.0 ≡ err (link_error not_ascii)
      → (without_timeout f (traced f o) m rounds r).0 ≡ err (link_error not_ascii)
  without_timeout_raises (ok t, s) h = cc
  without_timeout_raises (err x, s) h = ground arith

  send_one-log :
      (command : Text) (s : o.State × List Bytes)
      → (send_one f (traced f o) m rounds wait command s).0 ≡ ok tt
      → (send_one f (traced f o) m rounds wait command s).1.1 ≡ s.1 ++ (line_of command ∷ [])
  unfolding send_one
  send_one-log command s e =
      let r = ask f (traced f o) (strip command) wait s in
      elim (ask-log (strip command) s) [
        | inl h ↦ ap (λ t. t.1) (without_timeout_state r) ∙ h
        | inr h ↦ absurd (let raised = without_timeout_raises r h in cc)
      ]

  sent_then :
      (lines l : List Bytes) (line : Bytes)
      (r : Result ProbeError (Unit {0}) × (o.State × List Bytes))
      → (k : o.State × List Bytes → Result ProbeError (Unit {0}) × (o.State × List Bytes))
      → (r.0 ≡ ok tt → r.1.1 ≡ l ++ (line ∷ []))
      → ((t : o.State × List Bytes) → (k t).0 ≡ ok tt → (k t).1.1 ≡ t.1 ++ lines)
      → (after r (λ u. k)).0 ≡ ok tt
      → (after r (λ u. k)).1.1 ≡ l ++ (line ∷ lines)
  sent_then lines l line (ok tt, t) k h g e =
      g t e ∙ ap (λ x. x ++ lines) (h refl) ∙ append_assoc l (line ∷ []) lines
  sent_then lines l line (err x, t) k h g e = absurd cc

  -- Commands that are sent without an exception have all been written, stripped, each as a line, once
  -- and in order, whether or not a reply came in time.
  pub send_all-log :
      (commands : List Text) (s : o.State × List Bytes)
      → (send_all f (traced f o) m rounds wait commands s).0 ≡ ok tt
      → (send_all f (traced f o) m rounds wait commands s).1.1 ≡ s.1 ++ map line_of commands
  unfolding send_all
  send_all-log [] s e = sym (append-nil s.1)
  send_all-log (c ∷ cs) s e =
      sent_then (map line_of cs) s.1 (line_of c) (send_one f (traced f o) m rounds wait c s)
        (send_all f (traced f o) m rounds wait cs) (send_one-log c s) (send_all-log cs) e
