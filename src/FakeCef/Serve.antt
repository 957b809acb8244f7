-- ===== src/FakeCef/Serve.antt =====
-- host/tools/fake_cef.py, `serve`: the lines of the port, each answered by the controller.
pub mod Chunks
use zwo_eaf_proxy.Base.{
  ℕ, Bool, true, false, Option, none, some, List, [], ◌∷◌, ◌++◌, ◌==◌, if◌then◌else◌,
}
use zwo_eaf_proxy.Base.Bytes.{Bytes}
use zwo_eaf_proxy.Float.{Float}
use zwo_eaf_proxy.Text.{Text, strip}
use zwo_eaf_proxy.FakeCef.{Controller, reply}

-- What `serve` has after a chunk: what it wrote, the rest of the buffer, the controller, and whether
-- it goes on, which it does unless `reply` raised.
pub record Served (f : Float) : Type 0 where
  pub sent : Bytes
  pub buf : Bytes
  pub controller : Controller f
  pub alive : Bool

module _ (f : Float) (clock : ℕ → f.F) (float_of : Text → Option f.F)
    (aperture_min aperture_max : f.F) where
  -- `os.write(master, (answer + "\n").encode())`, and the lines that follow
  abbrev pub answered : Option Text × Controller f → (Controller f → Served f) → Bytes → Served f
  answered (none, c) next rest = record { sent = []; buf = rest; controller = c; alive = false }
  answered (some answer, c) next rest =
      let r = next c in record r { sent = answer ++ (b'\n' ∷ r.sent) }

  -- The bytes of a chunk behind a buffer with no line end: at each line end the line is taken off, as
  -- the loop over `buf.partition(b"\n")` does. A line is stripped; decoding ASCII changes nothing.
  unfoldable pub serve_chunk : Bytes → Bytes → Controller f → Served f
  serve_chunk buf [] c = record { sent = []; buf = buf; controller = c; alive = true }
  serve_chunk buf (b ∷ bs) c =
      let next = λ (c' : Controller f). serve_chunk [] bs c' in
      let longer = serve_chunk (buf ++ (b ∷ [])) bs c in
      if b == b'\n'
      then answered (reply f clock float_of aperture_min aperture_max (strip buf) c) next bs
      else longer

  -- What goes on with the next read where `reply` did not raise
  abbrev pub go_on : Bool → Served f → Served f → Served f
  go_on true r rest = record rest { sent = r.sent ++ rest.sent }
  go_on false r rest = r

  -- The loop over the reads: it returns at a read that fails, behind the last one, or has no bytes; the
  -- exception of `reply` ends it too.
  unfoldable pub serve_reads : Bytes → List Bytes → Controller f → Served f
  serve_reads buf [] c = record { sent = []; buf = buf; controller = c; alive = true }
  serve_reads buf ([] ∷ chunks) c = record { sent = []; buf = buf; controller = c; alive = true }
  serve_reads buf ((b ∷ bs) ∷ chunks) c =
      let r = serve_chunk buf (b ∷ bs) c in go_on r.alive r (serve_reads r.buf chunks r.controller)
