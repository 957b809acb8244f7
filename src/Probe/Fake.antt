-- ===== src/Probe/Fake.antt =====
-- The two tools of host/tools together: the probe on one end of a pty, the fake controller of
-- fake_cef.py, served, on the other. The pty keeps the bytes in order, and one clock is read by both.
pub mod Ask
pub mod Talk
pub mod Motion
pub mod Halt
pub mod Cycle
pub mod Identify
use zwo_eaf_proxy.Base.{
  ℕ, suc, Bool, true, false, Option, none, some, List, [], ◌∷◌, ◌++◌, take, drop, if◌then◌else◌,
}
use zwo_eaf_proxy.Base.Int.{pos}
use zwo_eaf_proxy.Base.Bytes.{Bytes}
use zwo_eaf_proxy.Float.{Float}
use zwo_eaf_proxy.Text.{Text}
use zwo_eaf_proxy.FakeCef.{Controller}
use zwo_eaf_proxy.FakeCef.Serve.{Served, serve_chunk}
use zwo_eaf_proxy.Probe.{Os}

-- The server, and what it sent and the probe has not read.
pub record Pty (f : Float) : Type 0 where
  pub server : Served f
  pub pending : Bytes

abbrev pub is_empty : Bytes → Bool
is_empty [] = true
is_empty (b ∷ bs) = false

-- Nothing is on its way.
abbrev pub at_rest : (f : Float) → Controller f → Pty f
at_rest f c = record {
  server = record { sent = []; buf = []; controller = c; alive = true };
  pending = [];
}

-- The clock is read once more.
abbrev pub ticked : (f : Float) → ℕ → Controller f → Controller f
ticked f n c = record c { reads = n }

module _ (f : Float) (clock : ℕ → f.F) (float_of : Text → Option f.F)
    (aperture_min aperture_max : f.F) where
  abbrev pub written : Bytes → Served f → Served f
  written b s = serve_chunk f clock float_of aperture_min aperture_max s.buf b s.controller

  -- The system of the probe; `remaining d n` bounds the readings before `d` from the n-th on.
  abbrev pub pty : (f.F → ℕ → ℕ) → Os f
  pty remaining = record {
    State = Pty f;
    write = λ b s.
        let r = written b s.server in
        if s.server.alive
        then record { server = record r { sent = [] }; pending = s.pending ++ r.sent }
        else s;
    select = λ t s. (
      if f.le (f.of_int (pos 0)) t then some (if is_empty s.pending then false else true) else none,
      s,
    );
    read = λ n s. (take n s.pending, record s { pending = drop n s.pending });
    monotonic = λ s.
        let c = s.server.controller in
        (
          clock c.reads,
          record s { server = record s.server { controller = ticked f (suc c.reads) c } },
        );
    sleep = λ t s. s;
    readings = λ d s. remaining d s.server.controller.reads;
  }
