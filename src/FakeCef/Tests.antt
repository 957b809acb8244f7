-- ===== src/FakeCef/Tests.antt =====
-- A controller that moves from 1000 to 1010, with the clock at 5.00 seconds and 5 milliseconds on.
use zwo_eaf_proxy.Base.{ℕ, ◌≡◌, refl, true, false, Option, none, some, List, [], ◌∷◌}
use zwo_eaf_proxy.Base.Bytes.{Bytes}
use zwo_eaf_proxy.Base.Int.{ℤ, pos}
use zwo_eaf_proxy.Float.FixedPoint.{fixed_point}
use zwo_eaf_proxy.Text.{Text}
use zwo_eaf_proxy.Pinefeat.{error, move_to}
use zwo_eaf_proxy.FakeCef.{Controller, advance, answer, argument, reply}
use zwo_eaf_proxy.FakeCef.Serve.{serve_chunk, serve_reads}
use zwo_eaf_proxy.FakeCef.Serve.Chunks.{Same, joined, serve_reads-joined}

abbrev clock : ℕ → ℤ
clock n = pos 501

abbrev no_float : Text → Option ℤ
no_float t = none

abbrev busy : Controller fixed_point
busy = record {
  position = pos 100_000;
  target = 1050;
  last = pos 500;
  reads = 1;
  accepts_retarget = false;
  has_lens = true;
}

-- It refuses the new target while it moves.
reply_refuses :
    (reply fixed_point clock no_float (pos 280) (pos 2260) (move_to (pos 2000)) busy).0 ≡ some error
unfolding reply answer argument advance move_to zwo_eaf_proxy.Text.decimal
    zwo_eaf_proxy.Text.decimal_from
reply_refuses = refl

-- The version is asked for in two reads, with the next command begun in the second.
abbrev chunks : List Bytes
chunks = (b'v' ∷ []) ∷ (b'\n' ∷ b'g' ∷ []) ∷ []

serve_reads-joined_example :
    Same fixed_point
      (serve_reads fixed_point clock no_float (pos 280) (pos 2260) [] chunks busy)
      (serve_chunk fixed_point clock no_float (pos 280) (pos 2260) [] (joined chunks) busy)
serve_reads-joined_example =
    serve_reads-joined fixed_point clock no_float (pos 280) (pos 2260) [] chunks busy
      (λ e. cc, (λ e. cc, tt))
