-- ===== src/Probe/Fake/Ask.antt =====
-- A question of the probe is answered by the reply of the controller.
use zwo_eaf_proxy.Base.{
  ℕ, suc, ◌≤◌, ◌<◌, ◌≡◌, refl, ap, ◌∙◌, true, false, Option, some, [], ◌∷◌, ◌++◌, arith, All,
  length, take_all, drop_all, ◌==◌, append-nil, append_assoc, length-append,
}
use zwo_eaf_proxy.Base.Int.{pos}
use zwo_eaf_proxy.Base.Result.{ok}
use zwo_eaf_proxy.Base.Bytes.{Bytes}
use zwo_eaf_proxy.Float.{Float, Le}
use zwo_eaf_proxy.Text.{strip, Text, all_chars}
use zwo_eaf_proxy.Pinefeat.{frame, terminator, is_ascii, is_line_end, has_char}
use zwo_eaf_proxy.Pinefeat.Replies.{unframe-append}
use zwo_eaf_proxy.FakeCef.{Controller, reply}
use zwo_eaf_proxy.FakeCef.Serve.{serve_chunk, answered}
use zwo_eaf_proxy.Probe.{Os, Action, lift}
use zwo_eaf_proxy.Probe.Port.{ask, read_line, read_loop, collected}
use zwo_eaf_proxy.Probe.Fake.{Pty, pty, at_rest, ticked, is_empty}

-- Two readings of the clock follow within the time of a reply.
pub record IsPrompt (f : Float) (clock : ℕ → f.F) (wait : f.F) : Type 0 where
  pub next : (n : ℕ) → f.le (f.add (clock n) wait) (clock (suc n)) ≡ false
  pub after_next :
      (n : ℕ) → Le f (f.of_int (pos 0)) (f.sub (f.add (clock n) wait) (clock (suc (suc n))))

-- A reply that comes through in one line of one read.
pub record IsLine (t : Text) : Type 0 where
  pub short : length t < 64
  pub ascii : all_chars is_ascii t ≡ true
  pub one_line : All (λ c. is_line_end c ≡ false) t

-- After the question the probe has read the clock three times.
abbrev pub later : (f : Float) → Controller f → Controller f
later f c = ticked f (suc (suc (suc c.reads))) c

has_char-line : (t : Text) → has_char b'\n' (t ++ terminator) ≡ true
has_char-line [] = refl
has_char-line (c ∷ cs) = ground (arith, has_char-line cs)

is_empty-line : (t : Text) → is_empty (t ++ terminator) ≡ false
is_empty-line [] = refl
is_empty-line (c ∷ cs) = refl

module _ (f : Float) (clock : ℕ → f.F) (float_of : Text → Option f.F)
    (aperture_min aperture_max : f.F) (remaining : f.F → ℕ → ℕ) where
  abbrev system : Os f
  system = pty f clock float_of aperture_min aperture_max remaining

  -- A line that comes in whole is answered.
  serve_line :
      (buf line : Bytes) (c : Controller f)
      → All (λ b. (b == b'\n') ≡ false) line
      → serve_chunk f clock float_of aperture_min aperture_max buf (line ++ terminator) c
        ≡ answered f clock float_of aperture_min aperture_max
            (reply f clock float_of aperture_min aperture_max (strip (buf ++ line)) c)
            (λ c'. record { sent = []; buf = []; controller = c'; alive = true })
            []
  unfolding serve_chunk
  serve_line buf [] c h = rw (append-nil buf) refl
  serve_line buf (b ∷ bs) c h = rw (h.0) (
      serve_line (buf ++ (b ∷ [])) bs c h.1
      ∙ ap
          (λ x.
            answered f clock float_of aperture_min aperture_max
              (reply f clock float_of aperture_min aperture_max (strip x) c)
              (λ c'. record { sent = []; buf = []; controller = c'; alive = true }) [])
          (append_assoc buf (b ∷ []) bs))

  collected_line :
      (t : Text) (again : Bytes → Action (Pty f) Bytes) (s : Pty f)
      → collected f system again [] (t ++ terminator) s ≡ (ok (t ++ terminator), s)
  collected_line [] again s = refl
  collected_line (c ∷ cs) again s = rw (has_char-line (c ∷ cs)) refl

  -- The reply is read.
  read_pending :
      (wait : f.F) (t : Text) (c : Controller f)
      → IsPrompt f clock wait
      → IsLine t
      → read_line f system wait (record (at_rest f c) { pending = t ++ terminator })
        ≡ (ok (t ++ terminator), at_rest f (later f c))
  unfolding read_line read_loop
  read_pending wait t c p l =
      let small : length (t ++ terminator) ≤ 64 =
        let short = l.short in omega (arith, length-append t terminator) in
      rw (p.next c.reads, p.after_next c.reads, is_empty-line t)
        (rw (take_all 64 (t ++ terminator) small, drop_all 64 (t ++ terminator) small)
          (collected_line t
            (read_loop f system (remaining (f.add (clock c.reads) wait) (suc c.reads))
              (f.add (clock c.reads) wait))
            (at_rest f (later f c))))

  -- A command of ASCII characters with no line end and nothing to strip, to which the fake
  -- controller replies by a line of fewer than 64 ASCII characters without a line end, is answered
  -- by that line, if the clock leaves time for the reply; the controller is left as the reply leaves
  -- it, but for the readings of the clock.
  pub ask-reply :
      (command t : Text) (wait : f.F) (c c' : Controller f)
      → IsPrompt f clock wait
      → IsLine t
      → all_chars is_ascii (command ++ terminator) ≡ true
      → All (λ b. (b == b'\n') ≡ false) command
      → strip command ≡ command
      → reply f clock float_of aperture_min aperture_max command c ≡ (some t, c')
      → ask f system command wait (at_rest f c) ≡ (ok t, at_rest f (later f c'))
  unfolding ask frame
  ask-reply command t wait c c' p l a n s r = rw a (
      rw (serve_line [] command c n) (
        rw s (
          rw r (
            rw (read_pending wait t c' p l) (
              ap (λ u. lift u (at_rest f (later f c')))
                (unframe-append t terminator l.ascii l.one_line refl))))))
