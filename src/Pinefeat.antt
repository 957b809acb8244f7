-- ===== src/Pinefeat.antt =====
-- host/src/zwoproxy/backends/pinefeat.py: the ASCII dialect of the Pinefeat CEF controller.
pub mod Replies
mod Tests
use zwo_eaf_proxy.Base.{
  ℕ, Bool, true, false, not, ◌&&◌, ◌||◌, Option, none, some, List, [], ◌∷◌, ◌++◌, ltb, ◌==◌,
  if◌then◌else◌,
}
use zwo_eaf_proxy.Base.Int.{ℤ, pos, pos_part, max_ℤ}
use zwo_eaf_proxy.Base.Result.{Result, ok, err, ◌>>=◌}
use zwo_eaf_proxy.Base.Bytes.{Bytes, bytes_eq}
use zwo_eaf_proxy.Text.{Text, rstrip, all_chars, int_of, decimal}

-- OK, ERROR, NOT_CONNECTED and TERMINATOR, and the commands without arguments.
abbrev pub ok_text : Text
ok_text = b'o' ∷ b'k' ∷ []

abbrev pub error : Text
error = b'e' ∷ b'r' ∷ []

abbrev pub not_connected : Text
not_connected = b'n' ∷ b'c' ∷ []

abbrev pub terminator : Text
terminator = 10 ∷ []

abbrev pub get_version : Text
get_version = b'v' ∷ []

abbrev pub get_position : Text
get_position = b'f' ∷ []

abbrev pub is_moving_command : Text
is_moving_command = b'e' ∷ []

abbrev pub get_range : Text
get_range = b'r' ∷ []

abbrev pub calibrate : Text
calibrate = b'c' ∷ []

abbrev pub get_aperture_range : Text
get_aperture_range = b'a' ∷ []

-- What the functions raise: `PinefeatError` with the reply, the `ValueError` of `int`, and the
-- Unicode errors of a text or bytes beyond ASCII.
pub data LinkError : Type 0 where
  pinefeat_error : Text → LinkError
  not_an_int : Text → LinkError
  not_ascii : LinkError

abbrev pub is_ascii : ℕ → Bool
is_ascii c = ltb c 128

unfoldable pub frame : Text → Result LinkError Bytes
frame command =
    if all_chars is_ascii (command ++ terminator) then ok (command ++ terminator) else err not_ascii

-- The characters of "\r\n".
abbrev pub is_line_end : ℕ → Bool
is_line_end c = c == 13 || c == 10

unfoldable pub unframe : Bytes → Result LinkError Text
unframe reply = if all_chars is_ascii reply then ok (rstrip is_line_end reply) else err not_ascii

unfoldable pub check : Text → Result LinkError Text
check reply =
    if bytes_eq reply error || bytes_eq reply not_connected
    then err (pinefeat_error reply)
    else ok reply

-- `f"m{max(0, target)}"`
unfoldable pub move_to : ℤ → Text
move_to target = b'm' ∷ decimal (pos_part (max_ℤ (pos 0) target))

-- `set_aperture`, on the text `f"{f_stop:.5f}"` that Python makes of the float.
unfoldable pub set_aperture : Text → Text
set_aperture formatted = rstrip (λ c. c == b'.') (rstrip (λ c. c == b'0') (b'a' ∷ formatted))

-- `int(text)`, raising its ValueError.
abbrev pub to_int : Text → Result LinkError ℤ
to_int t = elim (int_of t) [ none ↦ err (not_an_int t) | some n ↦ ok n ]

unfoldable pub parse_position : Text → Result LinkError ℤ
parse_position reply = check reply >>= to_int

unfoldable pub parse_is_moving : Text → Result LinkError Bool
parse_is_moving reply = check reply >>= (λ r. ok (bytes_eq r (b'y' ∷ [])))

-- `text.rsplit(sep, 1)[-1]`: what stands behind the last separator, or the whole text.
abbrev pub has_char : ℕ → Text → Bool
has_char sep [] = false
has_char sep (c ∷ cs) = c == sep || has_char sep cs

unfoldable pub after_last : ℕ → Text → Text
after_last sep [] = []
after_last sep (c ∷ cs) =
    let rest = after_last sep cs in
    if has_char sep cs then rest else if c == sep then cs else c ∷ cs

unfoldable pub parse_max_increment : Text → Result LinkError ℤ
parse_max_increment reply = check reply >>= (λ r. to_int (after_last b'-' r))
