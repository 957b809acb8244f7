-- ===== src/Probe/Fake/Talk.antt =====
-- What the probe hears of the fake controller: whether it moves, its position, and the answer to a
-- move.
use zwo_eaf_proxy.Base.{
  ℕ, ◌^◌, ◌<◌, ◌≡◌, refl, sym, ap, ◌∙◌, Bool, true, false, not, ◌&&◌, Option, some, [], ◌∷◌, ◌++◌,
  arith, All, length, Bool-cases, inl, inr, ◌==◌, if◌then◌else◌,
}
use zwo_eaf_proxy.Base.Int.{pos}
use zwo_eaf_proxy.Base.Result.{Result, ok, err}
use zwo_eaf_proxy.Float.{Float}
use zwo_eaf_proxy.Text.{strip, Text, all_chars, is_space, lstrip, rstrip, decimal}
use zwo_eaf_proxy.Text.Decimal.{
  IsDigit, decimal-IsDigit, length-decimal, All-weaken, rstrip_none, lstrip_none, digit_not_space,
  int_of-decimal,
}
use zwo_eaf_proxy.Pinefeat.{
  LinkError, error, ok_text, terminator, is_ascii, is_line_end, pinefeat_error, is_moving_command,
  get_position, to_int, check, parse_position, parse_is_moving,
}
use zwo_eaf_proxy.Pinefeat.Replies.{
  check_digits, digits_ascii, digit_not_line_end, all_chars-append_true,
}
use zwo_eaf_proxy.FakeCef.{Controller, advance, moving, reply, answer, argument}
use zwo_eaf_proxy.FakeCef.Dialect.{reply-move_to, move_to_digits}
use zwo_eaf_proxy.Probe.{Os, ProbeError, link_error, lift, after, ◌>>=◌}
use zwo_eaf_proxy.Probe.Port.{timeout, ask}
use zwo_eaf_proxy.Probe.Bench.{ask_moving, ask_position, command_move}
use zwo_eaf_proxy.Probe.Fake.{Pty, pty, at_rest}
use zwo_eaf_proxy.Probe.Fake.Ask.{IsPrompt, IsLine, later, ask-reply}

pub decimal-IsLine : (n : ℕ) → n < 2 ^ 32 → IsLine (decimal n)
decimal-IsLine n h =
    let digits = decimal-IsDigit n in
    record {
      short = omega (arith, length-decimal 9 n (omega arith));
      ascii = digits_ascii (decimal n) digits;
      one_line = All-weaken IsDigit (λ c. is_line_end c ≡ false) _ digit_not_line_end digits;
    }

pub parse_position_digits : (n : ℕ) → parse_position (decimal n) ≡ ok (pos n)
unfolding parse_position
parse_position_digits n =
    rw (check_digits (decimal n) (decimal-IsDigit n), to_int, int_of-decimal n)

digit_not_newline : (c : ℕ) → IsDigit c → (c == b'\n') ≡ false
digit_not_newline c h = ground arith

-- A move command is sent as it is.
strip_move : (n : ℕ) → strip (b'm' ∷ decimal n) ≡ b'm' ∷ decimal n
strip_move n =
    let spaceless : All (λ c. is_space c ≡ false) (b'm' ∷ decimal n) = (
      refl,
      All-weaken IsDigit (λ c. is_space c ≡ false) (decimal n) digit_not_space (decimal-IsDigit n),
    ) in
    ap (lstrip is_space) (rstrip_none is_space (b'm' ∷ decimal n) spaceless)
    ∙ lstrip_none is_space (b'm' ∷ decimal n) spaceless

module _ (f : Float) (clock : ℕ → f.F) (float_of : Text → Option f.F)
    (aperture_min aperture_max : f.F) (remaining : f.F → ℕ → ℕ)
    (prompt : IsPrompt f clock (timeout f)) where
  abbrev system : Os f
  system = pty f clock float_of aperture_min aperture_max remaining

  abbrev advanced : Controller f → Controller f
  advanced c = advance f clock float_of aperture_min aperture_max c

  abbrev in_motion : Controller f → Bool
  in_motion c = moving f clock float_of aperture_min aperture_max c

  -- A question that is answered, and what the dialect makes of the answer.
  heard :
      {A : Type 0} (command t : Text) (c c' : Controller f) (parse : Text → Result LinkError A)
      → IsLine t
      → all_chars is_ascii (command ++ terminator) ≡ true
      → All (λ b. (b == b'\n') ≡ false) command
      → strip command ≡ command
      → reply f clock float_of aperture_min aperture_max command c ≡ (some t, c')
      → (ask f system command (timeout f) >>= λ reply. lift (parse reply)) (at_rest f c)
        ≡ lift (parse t) (at_rest f (later f c'))
  heard command t c c' parse l a n s r =
      ap (λ x. after x (λ reply. lift (parse reply)))
        (ask-reply f clock float_of aperture_min aperture_max remaining command t (timeout f) c c'
          prompt l a n s r)

  pub short-IsLine :
      (t : Text)
      → length t < 4
      → all_chars is_ascii t ≡ true
      → All (λ c. is_line_end c ≡ false) t
      → IsLine t
  short-IsLine t h a n = record { short = omega arith; ascii = a; one_line = n }

  -- Whether it moves
  pub ask_moving_lem :
      (c : Controller f)
      → ask_moving f system (at_rest f c)
        ≡ (ok (in_motion (advanced c)), at_rest f (later f (advanced c)))
  unfolding reply answer argument parse_is_moving check
  ask_moving_lem c = elim (Bool-cases (in_motion (advanced c))) [
    | inl h ↦ rw h (
        heard is_moving_command (b'y' ∷ []) c (advanced c) parse_is_moving
          (short-IsLine (b'y' ∷ []) (omega arith) refl (refl, tt)) refl (refl, tt)
          (unfold lstrip rstrip in refl) (rw h refl))
    | inr h ↦ rw h (
        heard is_moving_command (b'n' ∷ []) c (advanced c) parse_is_moving
          (short-IsLine (b'n' ∷ []) (omega arith) refl (refl, tt)) refl (refl, tt)
          (unfold lstrip rstrip in refl) (rw h refl))
  ]

  -- Where it is
  pub ask_position_lem :
      (n : ℕ) (c : Controller f)
      → n < 2 ^ 32
      → f.trunc (advanced c).position ≡ pos n
      → ask_position f system (at_rest f c) ≡ (ok (pos n), at_rest f (later f (advanced c)))
  unfolding reply answer argument
  ask_position_lem n c h e =
      heard get_position (decimal n) c (advanced c) parse_position (decimal-IsLine n h) refl
        (refl, tt) (unfold lstrip rstrip in refl) (rw e refl)
      ∙ ap (λ r. lift r (at_rest f (later f (advanced c)))) (parse_position_digits n)

  -- What it answers to a move
  abbrev pub move_answer : ℕ → Controller f → Result ProbeError Text × Pty f
  move_answer n c =
      if in_motion c && not c.accepts_retarget
      then (err (link_error (pinefeat_error error)), at_rest f (later f c))
      else (ok ok_text, at_rest f (later f (record c { target = n })))

  pub command_move_lem :
      (n : ℕ) (c : Controller f)
      → n < 2 ^ 32
      → command_move f system (pos n) (at_rest f c) ≡ move_answer n (advanced c)
  unfolding check
  command_move_lem n c h =
      ap (λ t. (ask f system t (timeout f) >>= λ reply. lift (check reply)) (at_rest f c))
        (move_to_digits n)
      ∙ elim (Bool-cases (in_motion (advanced c) && not (advanced c).accepts_retarget)) [
        | inl b ↦ rw b (
            sent error (advanced c)
              (record { short = omega arith; ascii = refl; one_line = (refl, (refl, tt)) })
              (replied ∙ rw b refl))
        | inr b ↦ rw b (
            sent ok_text (record (advanced c) { target = n })
              (record { short = omega arith; ascii = refl; one_line = (refl, (refl, tt)) })
              (replied ∙ rw b refl))
      ]
    where
      replied : reply f clock float_of aperture_min aperture_max (b'm' ∷ decimal n) c ≡ (
          if in_motion (advanced c) && not (advanced c).accepts_retarget
          then (some error, advanced c)
          else (some ok_text, record (advanced c) { target = n }))
      replied =
          ap (λ t. reply f clock float_of aperture_min aperture_max t c) (sym (move_to_digits n))
          ∙ reply-move_to f clock float_of aperture_min aperture_max n c

      sent :
          (t : Text) (c' : Controller f)
          → IsLine t
          → reply f clock float_of aperture_min aperture_max (b'm' ∷ decimal n) c ≡ (some t, c')
          → (ask f system (b'm' ∷ decimal n) (timeout f) >>= λ reply. lift (check reply))
              (at_rest f c)
            ≡ lift (check t) (at_rest f (later f c'))
      sent t c' l r =
          heard (b'm' ∷ decimal n) t c c' check l
            (all_chars-append_true is_ascii (decimal n) terminator
              (digits_ascii (decimal n) (decimal-IsDigit n)) refl)
            (
              refl,
              All-weaken IsDigit (λ b. (b == b'\n') ≡ false) (decimal n) digit_not_newline
                  (decimal-IsDigit n),
            )
            (strip_move n) r
