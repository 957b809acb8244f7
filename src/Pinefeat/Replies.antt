-- ===== src/Pinefeat/Replies.antt =====
-- Replies of the controller decoded, and the commands that it is sent.
use zwo_eaf_proxy.Base.{ℕ, ◌≡◌, refl, ap, ◌∙◌, Bool, true, false, ◌||◌, [], ◌∷◌, ◌++◌, arith, All}
use zwo_eaf_proxy.Base.Int.{ℤ, pos, pos_part, max_ℤ}
use zwo_eaf_proxy.Base.Result.{ok, err, ◌>>=◌}
use zwo_eaf_proxy.Base.Bytes.{bytes_eq}
use zwo_eaf_proxy.Text.{Text, all_chars, decimal}
use zwo_eaf_proxy.Text.Decimal.{
  IsDigit, decimal-IsDigit, int_of-decimal, All-weaken, rstrip_none, rstrip-append,
}
use zwo_eaf_proxy.Pinefeat.{
  pinefeat_error, is_ascii, is_line_end, frame, unframe, check, error, not_connected, terminator,
  move_to, to_int, parse_position, parse_is_moving, has_char, after_last, parse_max_increment,
}

pub all_chars_of_All : (p : ℕ → Bool) (t : Text) → All (λ c. p c ≡ true) t → all_chars p t ≡ true
all_chars_of_All p [] h = refl
all_chars_of_All p (c ∷ cs) h = rw h.0 (all_chars_of_All p cs h.1)

pub all_chars-append_true :
    (p : ℕ → Bool) (s t : Text)
    → all_chars p s ≡ true
    → all_chars p t ≡ true
    → all_chars p (s ++ t) ≡ true
all_chars-append_true p [] t h k = k
all_chars-append_true p (c ∷ s) t h k = ground (arith, all_chars-append_true p s t)

line_end_is_ascii : (t : Text) → all_chars is_line_end t ≡ true → all_chars is_ascii t ≡ true
line_end_is_ascii [] h = refl
line_end_is_ascii (c ∷ cs) h = ground (arith, line_end_is_ascii cs)

-- A reply read up to its line end gives back the text, if the text is ASCII with no line end in it.
pub unframe-append :
    (t line_end : Text)
    → all_chars is_ascii t ≡ true
    → All (λ c. is_line_end c ≡ false) t
    → all_chars is_line_end line_end ≡ true
    → unframe (t ++ line_end) ≡ ok t
unfolding unframe
unframe-append t line_end h k e =
    rw (all_chars-append_true is_ascii t line_end h (line_end_is_ascii line_end e))
      (ap ok (rstrip-append is_line_end t line_end e ∙ rstrip_none is_line_end t k))

pub check_digits : (t : Text) → All IsDigit t → check t ≡ ok t
unfolding check
check_digits [] h = refl
check_digits (c ∷ cs) h = ground arith

pub digits_ascii : (t : Text) → All IsDigit t → all_chars is_ascii t ≡ true
digits_ascii [] h = refl
digits_ascii (c ∷ cs) h = ground (arith, digits_ascii cs h.1)

pub digit_not_line_end : (c : ℕ) → IsDigit c → is_line_end c ≡ false
digit_not_line_end c h = ground arith

-- A position of the controller, in decimal digits and with any line ending, is read back.
pub parse_position-decimal :
    (n : ℕ) (line_end : Text)
    → all_chars is_line_end line_end ≡ true
    → (unframe (decimal n ++ line_end) >>= parse_position) ≡ ok (pos n)
unfolding parse_position
parse_position-decimal n line_end e =
    let digits = decimal-IsDigit n in
    rw (
      unframe-append (decimal n) line_end (digits_ascii _ digits)
          (All-weaken IsDigit (λ c. is_line_end c ≡ false) _ digit_not_line_end digits) e,
      check_digits (decimal n) digits,
      to_int,
      int_of-decimal n,
    )

has_char_digits : (t : Text) → All IsDigit t → has_char 45 t ≡ false
has_char_digits [] h = refl
has_char_digits (c ∷ cs) h = ground (arith, has_char_digits cs h.1)

has_char-append : (s t : Text) → has_char 45 (s ++ (45 ∷ t)) ≡ true
has_char-append [] t = refl
has_char-append (c ∷ s) t = ground (arith, has_char-append s t)

-- Behind the last dash stands what has no dash.
after_last-append : (s t : Text) → has_char 45 t ≡ false → after_last 45 (s ++ (45 ∷ t)) ≡ t
unfolding after_last
after_last-append [] t h = rw h
after_last-append (c ∷ s) t h = rw (has_char-append s t) (after_last-append s t h)

check_range : (s t : Text) → All IsDigit s → check (s ++ (45 ∷ t)) ≡ ok (s ++ (45 ∷ t))
unfolding check
check_range [] t h = refl
check_range (c ∷ s) t h = ground arith

-- Of a range in decimal digits the upper end is taken.
pub parse_max_increment-range :
    (low high : ℕ) → parse_max_increment (decimal low ++ (b'-' ∷ decimal high)) ≡ ok (pos high)
unfolding parse_max_increment
parse_max_increment-range low high = rw (
  check_range (decimal low) (decimal high) (decimal-IsDigit low),
  after_last-append (decimal low) (decimal high) (has_char_digits _ (decimal-IsDigit high)),
  to_int,
  int_of-decimal high,
)

frame_digits : (n : ℕ) → frame (b'm' ∷ decimal n) ≡ ok (b'm' ∷ decimal n ++ terminator)
unfolding frame
frame_digits n = rw (
    all_chars-append_true is_ascii (decimal n) terminator (digits_ascii _ (decimal-IsDigit n)) refl)

pub clamped : (z : ℤ) → pos_part (max_ℤ (pos 0) z) ≡ pos_part z
clamped z = ground arith

-- The number that a move command carries: the target, or zero for a negative one.
pub move_to-target : (z : ℤ) → frame (move_to z) ≡ ok (b'm' ∷ decimal (pos_part z) ++ terminator)
unfolding move_to
move_to-target z = ap (λ k. frame (b'm' ∷ decimal k)) (clamped z) ∙ frame_digits (pos_part z)

-- An error status is raised by every reply parser, and with the status that the controller sent.
pub error_status_raises :
    (reply : Text)
    → (bytes_eq reply error || bytes_eq reply not_connected) ≡ true
    → (parse_position reply ≡ err (pinefeat_error reply))
      × (parse_is_moving reply ≡ err (pinefeat_error reply))
      × (parse_max_increment reply ≡ err (pinefeat_error reply))
unfolding parse_position parse_is_moving parse_max_increment check
error_status_raises reply h = (rw h, rw h, rw h)
