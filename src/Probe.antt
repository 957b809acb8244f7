-- ===== src/Probe.antt =====
-- host/tools/probe_pinefeat.py: the bench tool, over what it takes of the operating system. The parts
-- share the system's calls, the exceptions, and actions, which change the system's state and raise.
pub mod Port
pub mod Bench
pub mod Fake
pub mod Figures
pub mod Main
mod Tests
use zwo_eaf_proxy.Base.{ℕ, Bool, Option, none, some}
use zwo_eaf_proxy.Base.Int.{ℤ}
use zwo_eaf_proxy.Base.Result.{Result, ok, err}
use zwo_eaf_proxy.Base.Bytes.{Bytes}
use zwo_eaf_proxy.Float.{Float}
use zwo_eaf_proxy.Text.{Text}
use zwo_eaf_proxy.Pinefeat.{LinkError}

-- The calls that the tool makes of the system, on the port that it opened: `os.write`, which takes
-- all the bytes; `select.select` with a timeout, which says whether there is something to read, or
-- raises on a negative timeout (`none`); `os.read` of up to so many bytes; the clock, and `sleep`.
-- `readings d` is how often, at most, the clock is read before it passes `d`; loops that end at a
-- deadline have it as their fuel.
pub record Os (f : Float) : Type 1 where
  pub State : Type 0
  pub write : Bytes → State → State
  pub select : f.F → State → Option Bool × State
  pub read : ℕ → State → Bytes × State
  pub monotonic : State → f.F × State
  pub sleep : f.F → State → State
  pub readings : f.F → State → ℕ

-- What ends the tool: an error of the dialect; `TimeoutError` of `_read_line`, with what was read, or
-- of `settle`; the `RuntimeError` of `retarget_cycle`; the `ValueError` of `select` or of `max([])`,
-- and that of an option that is no number; the `SystemExit` of `find_port`. `out_of_fuel` is the
-- model's own.
pub data ProbeError : Type 0 where
  link_error : LinkError → ProbeError
  no_reply : Bytes → ProbeError
  still_moving : ProbeError
  finished_early : ℤ → ProbeError
  negative_timeout : ProbeError
  no_cycles : ProbeError
  bad_option : ProbeError
  no_port : ProbeError
  out_of_fuel : ProbeError

-- An action returns or raises, and leaves a state in either case.
abbrev pub Action : Type 0 → Type 0 → Type 0
Action S A = S → Result ProbeError A × S

module _ {S A : Type 0} where
  abbrev pub pure : A → Action S A
  pure a s = (ok a, s)

  abbrev pub raise : ProbeError → Action S A
  raise e s = (err e, s)

  -- A call of the dialect, which is pure.
  abbrev pub lift : Result LinkError A → Action S A
  lift (ok a) s = (ok a, s)
  lift (err e) s = (err (link_error e), s)

  -- A call of the system.
  abbrev pub call : (S → A × S) → Action S A
  call m s = let (a, s') = m s in (ok a, s')

-- What follows a result.
abbrev pub after :
    {S A B : Type 0} → Result ProbeError A × S → (A → Action S B) → Result ProbeError B × S
after (ok a, s) k = k a s
after (err e, s) k = (err e, s)

infixl 5 ◌>>=◌ ◌>>◌
abbrev pub ◌>>=◌ : {S A B : Type 0} → Action S A → (A → Action S B) → Action S B
◌>>=◌ m k s = after (m s) k

abbrev pub ◌>>◌ : {S A B : Type 0} → Action S A → Action S B → Action S B
m >> k = m >>= λ _. k
