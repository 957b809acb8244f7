-- ===== src/Probe/Port.antt =====
-- `class Port`: a command is written, and a line is read back before a deadline.
pub mod Ends
use zwo_eaf_proxy.Base.{
  ℕ, zero, suc, Bool, true, false, Option, none, some, List, [], ◌∷◌, ◌++◌, if◌then◌else◌,
}
use zwo_eaf_proxy.Base.Int.{pos}
use zwo_eaf_proxy.Base.Result.{Result, ok, err}
use zwo_eaf_proxy.Base.Bytes.{Bytes}
use zwo_eaf_proxy.Float.{Float}
use zwo_eaf_proxy.Text.{Text}
use zwo_eaf_proxy.Pinefeat.{frame, unframe, has_char}
use zwo_eaf_proxy.Probe.{
  Os, ProbeError, no_reply, negative_timeout, out_of_fuel, Action, pure, raise, lift, call, after,
  ◌>>=◌, ◌>>◌,
}

-- `TIMEOUT = 2.0`
abbrev pub timeout : (f : Float) → f.F
timeout f = f.of_int (pos 2)

module _ (f : Float) (o : Os f) where
  -- `buf += chunk`, and what the loop does with it: an empty chunk or no line end goes on.
  abbrev pub collected : (Bytes → Action o.State Bytes) → Bytes → Bytes → Action o.State Bytes
  collected again buf [] = again buf
  collected again buf (c ∷ cs) =
      if has_char b'\n' (buf ++ (c ∷ cs)) then pure (buf ++ (c ∷ cs)) else again (buf ++ (c ∷ cs))

  -- The body of the loop behind `select`.
  abbrev pub polled : (Bytes → Action o.State Bytes) → Bytes → Option Bool → Action o.State Bytes
  polled again buf none = raise negative_timeout
  polled again buf (some false) = again buf
  polled again buf (some true) = call (o.read 64) >>= collected again buf

  -- The body of the loop: the timeout of `select` takes another reading of the clock.
  abbrev pub poll : (Bytes → Action o.State Bytes) → f.F → Bytes → Action o.State Bytes
  poll again deadline buf =
      call o.monotonic >>= λ now. call (o.select (f.sub deadline now)) >>= polled again buf

  -- `while time.monotonic() < deadline`
  unfoldable pub read_loop : ℕ → f.F → Bytes → Action o.State Bytes
  read_loop zero deadline buf = raise out_of_fuel
  read_loop (suc k) deadline buf = call o.monotonic >>= λ now.
      if f.le deadline now then raise (no_reply buf) else poll (read_loop k deadline) deadline buf

  -- `_read_line`
  unfoldable pub read_line : f.F → Action o.State Bytes
  read_line wait = call o.monotonic >>= λ now.
      λ s. let deadline = f.add now wait in read_loop (suc (o.readings deadline s)) deadline [] s

  -- `os.write`
  abbrev pub write_line : Bytes → Action o.State (Unit {0})
  write_line b s = (ok tt, o.write b s)

  -- `ask`, without the trace that it prints
  unfoldable pub ask : Text → f.F → Action o.State Text
  ask command wait = do
    line ← lift (frame command)
    write_line line
    reply ← read_line wait
    lift (unframe reply)
