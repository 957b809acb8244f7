-- ===== src/FakeCef.antt =====
-- host/tools/fake_cef.py, `class Controller`: the counterpart of the dialect, for the bench tool.
-- Commands are ASCII, as the dialect sends them.
pub mod Dialect
pub mod Serve
mod Tests
use zwo_eaf_proxy.Base.{
  ℕ, suc, ◌+◌, Bool, true, false, not, ◌&&◌, Option, none, some, List, [], ◌∷◌, ◌++◌, ◌==◌,
  if◌then◌else◌,
}
use zwo_eaf_proxy.Base.Int.{ℤ, pos, negsuc, eqb_ℤ}
use zwo_eaf_proxy.Base.Bytes.{bytes_eq}
use zwo_eaf_proxy.Float.{Float}
use zwo_eaf_proxy.Text.{Text, is_digit, all_chars, digits_value, decimal}
use zwo_eaf_proxy.Pinefeat.{
  ok_text, error, get_version, get_position, is_moving_command, get_range, calibrate,
  get_aperture_range,
}

-- The attributes of a `Controller`, and the number of clock readings so far.
pub record Controller (f : Float) : Type 0 where
  pub position : f.F
  pub target : ℕ
  pub last : f.F
  pub reads : ℕ
  pub accepts_retarget : Bool
  pub has_lens : Bool

-- `re.fullmatch` of one character and a group of characters that meet a test, one at least.
unfoldable pub argument : ℕ → (ℕ → Bool) → Text → Option Text
argument c p [] = none
argument c p (x ∷ []) = none
argument c p (x ∷ y ∷ ys) = if x == c && all_chars p (y ∷ ys) then some (y ∷ ys) else none

-- `str(n)` of an int
abbrev pub int_text : ℤ → Text
int_text (pos n) = decimal n
int_text (negsuc n) = b'-' ∷ decimal (suc n)

-- `aperture_min` and `aperture_max` are the floats of the source; `float_of` is Python's `float` on
-- digits and dots, where `none` is its ValueError, with which `reply` raises.
module _ (f : Float) (clock : ℕ → f.F) (float_of : Text → Option f.F)
    (aperture_min aperture_max : f.F) where
  -- `RATE = 1000.0`, and the step of `advance` towards the target
  unfoldable pub advance : Controller f → Controller f
  advance s =
      let now = clock s.reads in
      let elapsed = f.sub now s.last in
      let remaining = f.sub (f.of_int (pos s.target)) s.position in
      let step = f.mul (f.of_int (pos 1000)) elapsed in
      record s {
        last = now;
        reads = suc s.reads;
        position =
            if f.eq remaining (f.of_int (pos 0))
            then s.position
            else if f.le (f.abs remaining) step
            then f.of_int (pos s.target)
            else f.add s.position
                (if not (f.le remaining (f.of_int (pos 0))) then step else f.neg step);
      }

  -- `int(self.position) != self.target`
  abbrev pub moving : Controller f → Bool
  moving s = not (eqb_ℤ (f.trunc s.position) (pos s.target))

  -- `self.target = int(...)`, which raises on no digits.
  abbrev pub set_target : Option ℕ → Controller f → Option Text × Controller f
  set_target none s = (none, s)
  set_target (some n) s = (some ok_text, record s { target = n })

  -- The last three tests of `reply`, on the group of digits.
  abbrev pub retarget : Option Text → Controller f → Option Text × Controller f
  retarget none s = (some error, s)
  retarget (some digits) s =
      if moving s && not s.accepts_retarget
      then (some error, s)
      else set_target (digits_value 0 false digits) s

  -- The test of an aperture, on the text of the group.
  abbrev pub aperture : Option f.F → Option Text
  aperture none = none
  aperture (some wanted) =
      some (if f.le aperture_min wanted && f.le wanted aperture_max then ok_text else error)

  -- The tests behind that for an aperture.
  abbrev pub focus : Text → Controller f → Option Text × Controller f
  focus command s =
      if bytes_eq command get_range
      then (
        some (if s.has_lens then b'0' ∷ b'-' ∷ decimal 9999 else b'0' ∷ b'-' ∷ decimal 65535),
        s,
      )
      else if bytes_eq command get_position
      then (some (int_text (f.trunc s.position)), s)
      else if bytes_eq command is_moving_command
      then (some (if moving s then b'y' ∷ [] else b'n' ∷ []), s)
      else retarget (argument b'm' is_digit command) s

  abbrev pub aperture_or_focus : Option Text → Text → Controller f → Option Text × Controller f
  aperture_or_focus (some wanted) command s = (aperture (float_of wanted), s)
  aperture_or_focus none command s = focus command s

  abbrev pub is_number_char : ℕ → Bool
  is_number_char c = if is_digit c then true else c == b'.'

  -- The tests of `reply`, behind `advance`.
  unfoldable pub answer : Text → Controller f → Option Text × Controller f
  answer command s =
      if bytes_eq command calibrate
      then (some (if s.has_lens then ok_text else error), s)
      else if bytes_eq command get_version
      then (
        some (
            b'C' ∷ b'E' ∷ b'F' ∷ b' ' ∷ b'f' ∷ b'a' ∷ b'k' ∷ b'e' ∷ b' ' ∷ b'1' ∷ b'.' ∷ b'0' ∷ []),
        s,
      )
      else if bytes_eq command get_aperture_range
      then (some (b'2' ∷ b'.' ∷ b'8' ∷ b'-' ∷ b'2' ∷ b'2' ∷ b'.' ∷ b'6' ∷ []), s)
      else aperture_or_focus (argument b'a' is_number_char command) command s

  unfoldable pub reply : Text → Controller f → Option Text × Controller f
  reply command s = answer command (advance s)
