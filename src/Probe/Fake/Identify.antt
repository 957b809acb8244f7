-- ===== src/Probe/Fake/Identify.antt =====
-- The probe identifies the fake controller.
use zwo_eaf_proxy.Base.{
  ℕ, ◌^◌, ◌<◌, ◌≡◌, refl, ap, ◌∙◌, Bool, true, false, Option, some, [], ◌∷◌, arith, if◌then◌else◌,
}
use zwo_eaf_proxy.Base.Int.{pos}
use zwo_eaf_proxy.Base.Result.{ok}
use zwo_eaf_proxy.Float.{Float, IsFloat}
use zwo_eaf_proxy.Text.{
  Text, lstrip, rstrip, decimal, decimal_from, int_of, signed_value, digits_value, partition,
}
use zwo_eaf_proxy.Pinefeat.{
  is_moving_command, get_version, get_range, get_position, check, parse_is_moving,
}
use zwo_eaf_proxy.Simulated.Advance.{IsMonotonic}
use zwo_eaf_proxy.FakeCef.{Controller, advance, moving, reply, answer, argument}
use zwo_eaf_proxy.Probe.{Os}
use zwo_eaf_proxy.Probe.Port.{timeout, ask}
use zwo_eaf_proxy.Probe.Bench.{identify, parse_range}
use zwo_eaf_proxy.Probe.Fake.{Pty, pty, at_rest}
use zwo_eaf_proxy.Probe.Fake.Ask.{IsPrompt, IsLine, later, ask-reply}
use zwo_eaf_proxy.Probe.Fake.Talk.{decimal-IsLine, parse_position_digits}
use zwo_eaf_proxy.Probe.Fake.Motion.{IsFine, later-IsFine, advance-IsFine, position_number}

-- What the fake controller says of its version, its range and its motion
abbrev version_text : Text
version_text =
    b'C' ∷ b'E' ∷ b'F' ∷ b' ' ∷ b'f' ∷ b'a' ∷ b'k' ∷ b'e' ∷ b' ' ∷ b'1' ∷ b'.' ∷ b'0' ∷ []

abbrev pub top : Bool → ℕ
top has_lens = if has_lens then 9999 else 65535

abbrev range_text : Bool → Text
range_text has_lens = if has_lens then b'0' ∷ b'-' ∷ decimal 9999 else b'0' ∷ b'-' ∷ decimal 65535

version-IsLine : IsLine version_text
version-IsLine = record {
  short = omega arith;
  ascii = refl;
  one_line = (
    refl,
    (refl, (refl, (refl, (refl, (refl, (refl, (refl, (refl, (refl, (refl, (refl, tt))))))))))),
  );
}

range-IsLine : (b : Bool) → IsLine (range_text b)
unfolding decimal decimal_from
range-IsLine true = record {
  short = omega arith;
  ascii = refl;
  one_line = (refl, (refl, (refl, (refl, (refl, (refl, tt))))));
}
range-IsLine false = record {
  short = omega arith;
  ascii = refl;
  one_line = (refl, (refl, (refl, (refl, (refl, (refl, (refl, tt)))))));
}

abbrev moving_text : Bool → Text
moving_text moves = if moves then b'y' ∷ [] else b'n' ∷ []

moving-IsLine : (b : Bool) → IsLine (moving_text b)
moving-IsLine true = record { short = omega arith; ascii = refl; one_line = (refl, tt) }
moving-IsLine false = record { short = omega arith; ascii = refl; one_line = (refl, tt) }

check_version : check version_text ≡ ok version_text
unfolding check
check_version = refl

check_range : (b : Bool) → check (range_text b) ≡ ok (range_text b)
unfolding check decimal decimal_from
check_range true = refl
check_range false = refl

parse_moving : (b : Bool) → parse_is_moving (moving_text b) ≡ ok b
unfolding parse_is_moving check
parse_moving true = refl
parse_moving false = refl

module _ (f : Float) (laws : IsFloat f) (clock : ℕ → f.F) (mono : IsMonotonic f clock)
    (float_of : Text → Option f.F) (aperture_min aperture_max : f.F) (remaining : f.F → ℕ → ℕ)
    (prompt : IsPrompt f clock (timeout f)) where
  abbrev system : Os f
  system = pty f clock float_of aperture_min aperture_max remaining

  -- The controller behind a question
  abbrev pub asked : Controller f → Controller f
  asked c = later f (advance f clock float_of aperture_min aperture_max c)

  abbrev Answers : ℕ → Text → Controller f → Type 0
  Answers b t c = ask f system (b ∷ []) (timeout f) (at_rest f c) ≡ (ok t, at_rest f (asked c))

  version_lem : (c : Controller f) → Answers b'v' version_text c
  unfolding reply answer
  version_lem c =
      ask-reply f clock float_of aperture_min aperture_max remaining get_version version_text
        (timeout f) c (advance f clock float_of aperture_min aperture_max c) prompt version-IsLine
        refl (refl, tt) (unfold lstrip rstrip in refl) refl

  range_lem : (b : Bool) (c : Controller f) → c.has_lens ≡ b → Answers b'r' (range_text b) c
  unfolding reply answer argument advance
  range_lem b c e =
      ask-reply f clock float_of aperture_min aperture_max remaining get_range (range_text b)
        (timeout f) c (advance f clock float_of aperture_min aperture_max c) prompt (range-IsLine b)
        refl (refl, tt) (unfold lstrip rstrip in refl)
        (ap (λ x. (some (range_text x), advance f clock float_of aperture_min aperture_max c)) e)

  position_lem :
      (n : ℕ) (c : Controller f)
      → n < 2 ^ 32
      → f.trunc (advance f clock float_of aperture_min aperture_max c).position ≡ pos n
      → Answers b'f' (decimal n) c
  unfolding reply answer argument
  position_lem n c h e =
      ask-reply f clock float_of aperture_min aperture_max remaining get_position (decimal n)
        (timeout f) c (advance f clock float_of aperture_min aperture_max c) prompt
        (decimal-IsLine n h) refl (refl, tt) (unfold lstrip rstrip in refl) (rw e refl)

  moving_lem :
      (c : Controller f)
      → Answers b'e'
          (moving_text (
            moving f clock float_of aperture_min aperture_max
              (advance f clock float_of aperture_min aperture_max c)))
          c
  unfolding reply answer argument
  moving_lem c =
      ask-reply f clock float_of aperture_min aperture_max remaining is_moving_command _ (timeout f)
        c (advance f clock float_of aperture_min aperture_max c) prompt (moving-IsLine _) refl
        (refl, tt) (unfold lstrip rstrip in refl) refl

  lens-asked : (c : Controller f) → (asked c).has_lens ≡ c.has_lens
  unfolding advance
  lens-asked c = refl

  target-asked : (c : Controller f) → (asked c).target ≡ c.target
  unfolding advance
  target-asked c = refl

  asked-IsFine : (c : Controller f) → IsFine f clock c → IsFine f clock (asked c)
  asked-IsFine c h =
      later-IsFine f laws clock mono float_of aperture_min aperture_max _
        (advance-IsFine f laws clock mono float_of aperture_min aperture_max c h)

  parse_range_lem :
      (b : Bool) (s : Pty f) → parse_range f system (range_text b) s ≡ (ok (pos 0, pos (top b)), s)
  unfolding decimal decimal_from int_of signed_value digits_value lstrip rstrip partition
  parse_range_lem true s = refl
  parse_range_lem false s = refl

  -- Over a clock that does not run backwards and that leaves time for a reply, identifying a fake
  -- controller whose position and target are of four bytes and whose last reading lies before the
  -- next, in motion or not, returns its range, from 0 to 9999, or to 65535 if it has no lens, and
  -- leaves its target.
  pub identify-range :
      (c : Controller f)
      → IsFine f clock c
      → ((identify f system (at_rest f c)).0 ≡ ok (pos 0, pos (top c.has_lens)))
        × ((identify f system (at_rest f c)).1.server.controller.target ≡ c.target)
  unfolding identify
  identify-range c h =
      let h' =
        advance-IsFine f laws clock mono float_of aperture_min aperture_max _
          (asked-IsFine _ (asked-IsFine c h)) in
      let (n, k, e) = position_number f laws clock mono float_of aperture_min aperture_max _ h' in
      rw (version_lem c) (
        rw check_version (
          rw (range_lem c.has_lens (asked c) (lens-asked c)) (
            rw (check_range c.has_lens) (
              rw (position_lem n (asked (asked c)) k e) (
                rw (parse_position_digits n) (
                  rw (moving_lem (asked (asked (asked c)))) (
                    rw
                      (parse_moving (
                        moving f clock float_of aperture_min aperture_max (
                          advance f clock float_of aperture_min aperture_max
                            (asked (asked (asked c))))))
                      (rw (parse_range_lem c.has_lens (at_rest f (asked (asked (asked (asked c))))))
                        (
                          refl,
                          target-asked (asked (asked (asked c)))
                              ∙ (target-asked (asked (asked c))
                                  ∙ (target-asked (asked c) ∙ target-asked c)),
                        )))))))))
