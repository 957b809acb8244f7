-- ===== src/FakeCef/Dialect.antt =====
-- The controller and the dialect together: what the one sends, the other understands.
use zwo_eaf_proxy.Base.{
  ℕ, ◌≡◌, refl, ap, true, false, not, ◌&&◌, Option, some, [], ◌∷◌, ◌++◌, arith, if◌then◌else◌,
}
use zwo_eaf_proxy.Base.Int.{pos}
use zwo_eaf_proxy.Base.Result.{ok, ◌>>=◌}
use zwo_eaf_proxy.Float.{Float}
use zwo_eaf_proxy.Text.{Text, is_digit, all_chars, digits_value, decimal}
use zwo_eaf_proxy.Text.Decimal.{All-weaken, IsDigit, decimal-IsDigit, digits_value-decimal}
use zwo_eaf_proxy.Pinefeat.{
  ok_text, error, get_position, move_to, unframe, terminator, parse_position,
}
use zwo_eaf_proxy.Pinefeat.Replies.{parse_position-decimal, all_chars_of_All, clamped}
use zwo_eaf_proxy.FakeCef.{Controller, argument, advance, moving, answer, reply}

is_digit_of : (c : ℕ) → IsDigit c → is_digit c ≡ true
is_digit_of c h = ground arith

pub move_to_digits : (n : ℕ) → move_to (pos n) ≡ b'm' ∷ decimal n
unfolding move_to
move_to_digits n = ap (λ k. b'm' ∷ decimal k) (clamped (pos n))

module _ (f : Float) (clock : ℕ → f.F) (float_of : Text → Option f.F)
    (aperture_min aperture_max : f.F) where
  -- The answer to an `m` with digits.
  answer_digits :
      (n : ℕ) (t : Text) (s : Controller f)
      → all_chars is_digit t ≡ true
      → digits_value 0 false t ≡ some n
      → answer f clock float_of aperture_min aperture_max (b'm' ∷ t) s ≡ (
          if moving f clock float_of aperture_min aperture_max s && not s.accepts_retarget
          then (some error, s)
          else (some ok_text, record s { target = n }))
  unfolding answer argument
  answer_digits n [] s h e = absurd (unfold digits_value in cc)
  answer_digits n (d ∷ ds) s h e = rw (h, e) refl

  -- The move command of the dialect, for a target that is not negative: the controller takes over
  -- the target, unless it is moving and refuses a new one.
  pub reply-move_to :
      (n : ℕ) (s : Controller f)
      → let s' = advance f clock float_of aperture_min aperture_max s in
        reply f clock float_of aperture_min aperture_max (move_to (pos n)) s ≡ (
          if moving f clock float_of aperture_min aperture_max s' && not s'.accepts_retarget
          then (some error, s')
          else (some ok_text, record s' { target = n }))
  unfolding reply
  reply-move_to n s =
      let digits =
        all_chars_of_All is_digit (decimal n) (
          All-weaken IsDigit (λ c. is_digit c ≡ true) (decimal n) is_digit_of
            (decimal-IsDigit n)) in
      rw (move_to_digits n) (
        answer_digits n (decimal n) (advance f clock float_of aperture_min aperture_max s) digits
          (digits_value-decimal n))

  -- The position query, framed and read by the dialect, is the position as an int, if that is not
  -- negative.
  pub reply-position :
      (n : ℕ) (s : Controller f)
      → f.trunc (advance f clock float_of aperture_min aperture_max s).position ≡ pos n
      → let r = reply f clock float_of aperture_min aperture_max get_position s in
        (t : Text) × (r.0 ≡ some t) × ((unframe (t ++ terminator) >>= parse_position) ≡ ok (pos n))
  unfolding reply answer argument
  reply-position n s h = (decimal n, rw h refl, parse_position-decimal n terminator refl)
