-- ===== src/Persona/Protocol/Parse.antt =====
-- `parse_command` against the wire layout of the host's reports.
use zwo_eaf_proxy.Base.{
  ℕ, zero, suc, ◌^◌, ◌≤◌, ◌<◌, ◌≡◌, refl, ap, Bool, true, false, Option, none, some, [], ◌∷◌, ◌++◌,
  arith, if◌then◌else◌, length, All, ◌↔◌, ◌⊎◌, inl, inr, get_or, slice, drop, length-take, All-take,
  All-drop,
}
use zwo_eaf_proxy.Base.Result.{Result, ok, err, is_ok}
use zwo_eaf_proxy.Base.Bytes.{Bytes, IsByte, to_bytes, from_bytes}
use zwo_eaf_proxy.Persona.Protocol.{
  Command, read_register, write_state, WriteState, parse_command, parse_state, MalformedReport,
}

-- The bytes of a state write up to the sync flag, in the order of the wire: the report id, the
-- magic, register 3, the go flag, an unused byte, the position and the sync flag.
abbrev pub write_head : WriteState → Bytes
write_head w =
    (3 ∷ 0x7e ∷ 0x5a ∷ 3 ∷ (if w.go then 1 else 0) ∷ 0 ∷ [])
    ++ (to_bytes 4 w.position ++ ((if w.sync then 1 else 0) ∷ []))

-- The whole report of a host that writes `w`; `t` and `u` are bytes that the device does not read.
abbrev pub write_report : ℕ → ℕ → WriteState → Bytes
write_report t u w = elim w.settings [
  | none ↦ write_head w
  | some s ↦ write_head w ++ (t ∷ u ∷ s ∷ [])
]

abbrev pub read_report : ℕ → Bytes
read_report register = 3 ∷ 0x7e ∷ 0x5a ∷ 2 ∷ register ∷ []

abbrev state_write : Bool → Bool → ℕ → Option ℕ → WriteState
state_write go sync p settings = record { go = go; position = p; sync = sync; settings = settings }

parse-write_head :
    (go sync : Bool) (p : ℕ)
    → p < 2 ^ 32
    → parse_command (write_head (state_write go sync p none))
      ≡ ok (write_state (state_write go sync p none))
unfolding parse_command parse_state
parse-write_head true true p h = ground arith
parse-write_head true false p h = ground arith
parse-write_head false true p h = ground arith
parse-write_head false false p h = ground arith

parse-write_full :
    (go sync : Bool) (p s t u : ℕ) (rest : Bytes)
    → p < 2 ^ 32
    → parse_command (write_report t u (state_write go sync p (some s)) ++ rest)
      ≡ ok (write_state (state_write go sync p (some s)))
unfolding parse_command parse_state
parse-write_full true true p s t u rest h = ground arith
parse-write_full true false p s t u rest h = ground arith
parse-write_full false true p s t u rest h = ground arith
parse-write_full false false p s t u rest h = ground arith

-- The bytes that follow: none where the settings byte is missing, else any.
abbrev pub Follows : Option ℕ → Bytes → Type 0
Follows none rest = rest ≡ []
Follows (some s) rest = Unit

write_report_cases :
    (go sync : Bool) (p t u : ℕ) (settings : Option ℕ) (rest : Bytes)
    → p < 2 ^ 32
    → Follows settings rest
    → parse_command (write_report t u (state_write go sync p settings) ++ rest)
      ≡ ok (write_state (state_write go sync p settings))
write_report_cases go sync p t u none rest h e = rw e (parse-write_head go sync p h)
write_report_cases go sync p t u (some s) rest h e = parse-write_full go sync p s t u rest h

-- Every state write of a 32-bit position decodes to what was written, with a settings byte and any
-- padding behind it, or cut off behind the sync flag with no settings.
pub parse-write_report :
    (w : WriteState) (t u : ℕ) (rest : Bytes)
    → w.position < 2 ^ 32
    → Follows w.settings rest
    → parse_command (write_report t u w ++ rest) ≡ ok (write_state w)
parse-write_report w t u rest h e =
    write_report_cases w.go w.sync w.position t u w.settings rest h e

read_shape :
    (r : Bytes) (g : ℕ)
    → parse_command r ≡ ok (read_register g)
    → (rest : Bytes) × (r ≡ read_report g ++ rest)
unfolding parse_command parse_state
read_shape [] g e = cc
read_shape (a ∷ []) g e = cc
read_shape (a ∷ b ∷ []) g e = cc
read_shape (a ∷ b ∷ c ∷ []) g e = cc
read_shape (a ∷ b ∷ c ∷ d ∷ []) g e = cc
read_shape (a ∷ b ∷ c ∷ d ∷ x ∷ rest) g e = (rest, ground arith)

parse-read_report :
    (g : ℕ) (rest : Bytes) → parse_command (read_report g ++ rest) ≡ ok (read_register g)
unfolding parse_command parse_state
parse-read_report g rest = ground arith

-- A report decodes to a read of a register exactly when it is 03 7E 5A 02 and the register,
-- whatever follows.
pub parse-read_iff :
    (r : Bytes) (g : ℕ)
    → (parse_command r ≡ ok (read_register g)) ↔ ((rest : Bytes) × (r ≡ read_report g ++ rest))
parse-read_iff r g = (read_shape r g, λ h. rw h.1 (parse-read_report g h.0))

-- What a decoded report looks like, without the arguments.
abbrev pub StateWrite : Bytes → Type 0
StateWrite r = (rest : Bytes) × (r ≡ 3 ∷ 0x7e ∷ 0x5a ∷ 3 ∷ rest) × (10 ≤ length r)

write_shape : (r : Bytes) (w : WriteState) → parse_command r ≡ ok (write_state w) → StateWrite r
unfolding parse_command parse_state
write_shape [] w e = cc
write_shape (a ∷ []) w e = cc
write_shape (a ∷ b ∷ []) w e = cc
write_shape (a ∷ b ∷ c ∷ []) w e = cc
write_shape (a ∷ b ∷ c ∷ d ∷ []) w e = cc
write_shape (a ∷ b ∷ c ∷ d ∷ x0 ∷ []) w e = ground arith
write_shape (a ∷ b ∷ c ∷ d ∷ x0 ∷ x1 ∷ []) w e = ground arith
write_shape (a ∷ b ∷ c ∷ d ∷ x0 ∷ x1 ∷ x2 ∷ []) w e = ground arith
write_shape (a ∷ b ∷ c ∷ d ∷ x0 ∷ x1 ∷ x2 ∷ x3 ∷ []) w e = ground arith
write_shape (a ∷ b ∷ c ∷ d ∷ x0 ∷ x1 ∷ x2 ∷ x3 ∷ x4 ∷ []) w e = ground arith
write_shape (a ∷ b ∷ c ∷ d ∷ x0 ∷ x1 ∷ x2 ∷ x3 ∷ x4 ∷ x5 ∷ rest) w e =
    (x0 ∷ x1 ∷ x2 ∷ x3 ∷ x4 ∷ x5 ∷ rest, ground arith, omega arith)

read-is_ok : (rest : Bytes) (g : ℕ) → is_ok (parse_command (read_report g ++ rest)) ≡ true
unfolding parse_command parse_state
read-is_ok rest g = ground arith

write-is_ok : (r : Bytes) → StateWrite r → is_ok (parse_command r) ≡ true
unfolding parse_command parse_state
write-is_ok r (x0 ∷ x1 ∷ x2 ∷ x3 ∷ x4 ∷ x5 ∷ rest, e, h) = ground arith
write-is_ok r (rest, e, h) = absurd (omega (arith, ap length e))

accepts :
    (r : Bytes)
    → is_ok (parse_command r) ≡ true
    → ((g : ℕ) × (rest : Bytes) × (r ≡ read_report g ++ rest)) ⊎ StateWrite r
accepts r h = accepted (parse_command r) refl h
  where
    accepted :
        (p : Result MalformedReport Command)
        → parse_command r ≡ p
        → is_ok p ≡ true
        → ((g : ℕ) × (rest : Bytes) × (r ≡ read_report g ++ rest)) ⊎ StateWrite r
    accepted (ok (read_register g)) e k = let s = read_shape r g e in inl (g, s.0, s.1)
    accepted (ok (write_state w)) e k = inr (write_shape r w e)
    accepted (err m) e k = cc

-- The device understands exactly the reads of a register and the state writes that reach the end
-- of the position; any other report is malformed.
pub parse_accepts_iff :
    (r : Bytes)
    → (is_ok (parse_command r) ≡ true)
      ↔ (((g : ℕ) × (rest : Bytes) × (r ≡ read_report g ++ rest)) ⊎ StateWrite r)
parse_accepts_iff r = (
  accepts r,
  λ s. elim s [ inl (g, rest, e) ↦ rw e (read-is_ok rest g) | inr w ↦ write-is_ok r w ],
)

-- Bytes past the sixteen of a report change nothing.
pub parse_padding : (r more : Bytes) → 16 ≤ length r → parse_command (r ++ more) ≡ parse_command r
unfolding parse_command parse_state
parse_padding (a ∷ b ∷ c ∷ d ∷ x0 ∷ x1 ∷ x2 ∷ x3 ∷ x4 ∷ x5 ∷ x6 ∷ x7 ∷ x8 ∷ x9 ∷ x10 ∷ x11 ∷ rest)
      more h =
    ground arith
parse_padding r more h = absurd (omega arith)

-- The values that fit the fields of a command.
abbrev pub InRange : Command → Type 0
InRange (read_register g) = g < 256
InRange (write_state w) = (w.position < 2 ^ 32) × ((s : ℕ) → w.settings ≡ some s → s < 256)

get_or-IsByte : (bs : Bytes) (i : ℕ) → All IsByte bs → IsByte (get_or bs i 0)
get_or-IsByte [] i h = omega arith
get_or-IsByte (b ∷ bs) zero h = h.0
get_or-IsByte (b ∷ bs) (suc i) h = get_or-IsByte bs i h.1

from_bytes_4-lt : (bs : Bytes) → All IsByte bs → length bs ≤ 4 → from_bytes bs < 2 ^ 32
from_bytes_4-lt [] h n = omega arith
from_bytes_4-lt (a ∷ []) h n = omega arith
from_bytes_4-lt (a ∷ b ∷ []) h n = omega arith
from_bytes_4-lt (a ∷ b ∷ c ∷ []) h n = omega arith
from_bytes_4-lt (a ∷ b ∷ c ∷ d ∷ []) h n = omega arith
from_bytes_4-lt (a ∷ b ∷ c ∷ d ∷ e ∷ bs) h n = absurd (omega arith)

parse_state-InRange :
    (body : Bytes) (c : Command) → All IsByte body → parse_state body ≡ ok c → InRange c
unfolding parse_state
parse_state-InRange body (read_register g) h e = ground arith
parse_state-InRange body (write_state w) h e =
    (ground (arith, position), λ s q. ground (arith, get_or-IsByte body 9 h))
  where
    position : from_bytes (slice 2 6 body) < 2 ^ 32
    position =
        from_bytes_4-lt (slice 2 6 body)
          (All-take IsByte 4 (drop 2 body) (All-drop IsByte 2 body h))
          (omega (arith, length-take 4 (drop 2 body)))

slice-IsByte : (r : Bytes) → All IsByte r → All IsByte (slice 4 16 r)
slice-IsByte r h = All-take IsByte 12 (drop 4 r) (All-drop IsByte 4 r h)

-- A report of bytes decodes to a register of one byte, a position of four and a settings byte.
pub parse-InRange : (r : Bytes) (c : Command) → All IsByte r → parse_command r ≡ ok c → InRange c
unfolding parse_command
parse-InRange r (read_register g) h e = ground (
  arith,
  get_or-IsByte r 4 h,
  parse_state-InRange (slice 4 16 r) (read_register g) (slice-IsByte r h),
)
parse-InRange r (write_state w) h e =
    parse_state-InRange (slice 4 16 r) (write_state w) (slice-IsByte r h) (ground arith)
