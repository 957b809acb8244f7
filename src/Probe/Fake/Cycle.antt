-- ===== src/Probe/Fake/Cycle.antt =====
-- A cycle of the probe on the fake controller comes to an end, and how.
use zwo_eaf_proxy.Base.{
  ℕ, suc, ◌≤◌, ◌<◌, ◌≡◌, refl, Bool, true, false, Option, none, some, [], ◌∷◌, ◌++◌, arith,
  Bool-cases, inl, inr, ◌==◌, if◌then◌else◌,
}
use zwo_eaf_proxy.Base.Bytes.{Bytes, bytes_eq}
use zwo_eaf_proxy.Float.{Float}
use zwo_eaf_proxy.Text.{strip, Text, is_digit, digits_value}
use zwo_eaf_proxy.Pinefeat.{
  error, calibrate, get_version, get_aperture_range, get_range, get_position, is_moving_command,
}
use zwo_eaf_proxy.FakeCef
use zwo_eaf_proxy.FakeCef.{
  Controller, reply, answer, argument, retarget, set_target, focus, aperture_or_focus,
}
use zwo_eaf_proxy.FakeCef.Serve.{serve_chunk, answered, Served}
use zwo_eaf_proxy.Probe.{Os}
use zwo_eaf_proxy.Probe.Port.Ends.{IsPassing}
use zwo_eaf_proxy.Probe.Fake.{Pty, pty}

-- `remaining d n` counts the readings from the n-th on that lie before `d`, or more.
pub record IsCount (f : Float) (clock : ℕ → f.F) (remaining : f.F → ℕ → ℕ) : Type 0 where
  pub before : (d : f.F) (n : ℕ) → f.le d (clock n) ≡ false → remaining d (suc n) < remaining d n
  pub falls : (d : f.F) (m n : ℕ) → m ≤ n → remaining d n ≤ remaining d m

reads-if :
    (f : Float) (b : Bool) (x y : Option Text × Controller f) (n : ℕ)
    → x.1.reads ≡ n
    → y.1.reads ≡ n
    → (if b then x else y).1.reads ≡ n
reads-if f true x y n h k = h
reads-if f false x y n h k = k

module _ (f : Float) (clock : ℕ → f.F) (float_of : Text → Option f.F)
    (aperture_min aperture_max : f.F) where
  -- No branch of `reply` behind `advance` reads the clock.
  reads-set_target :
      (o : Option ℕ) (c : Controller f)
      → (set_target f clock float_of aperture_min aperture_max o c).1.reads ≡ c.reads
  reads-set_target none c = refl
  reads-set_target (some n) c = refl

  reads-retarget :
      (o : Option Text) (c : Controller f)
      → (retarget f clock float_of aperture_min aperture_max o c).1.reads ≡ c.reads
  reads-retarget none c = refl
  reads-retarget (some t) c =
      reads-if f _ (some error, c)
        (set_target f clock float_of aperture_min aperture_max (digits_value 0 false t) c) c.reads
        refl (reads-set_target (digits_value 0 false t) c)

  reads-aperture_or_focus :
      (o : Option Text) (t : Text) (c : Controller f)
      → (aperture_or_focus f clock float_of aperture_min aperture_max o t c).1.reads ≡ c.reads
  reads-aperture_or_focus (some w) t c = refl
  reads-aperture_or_focus none t c = reads-if f (bytes_eq t get_range) _ _ c.reads refl (
      reads-if f (bytes_eq t get_position) _ _ c.reads refl (
        reads-if f (bytes_eq t is_moving_command) _ _ c.reads refl
          (reads-retarget (argument b'm' is_digit t) c)))

  reads-reply :
      (t : Text) (c : Controller f)
      → (reply f clock float_of aperture_min aperture_max t c).1.reads ≡ suc c.reads
  unfolding reply answer FakeCef.advance
  reads-reply t c = reads-if f (bytes_eq t calibrate) _ _ (suc c.reads) refl (
      reads-if f (bytes_eq t get_version) _ _ (suc c.reads) refl (
        reads-if f (bytes_eq t get_aperture_range) _ _ (suc c.reads) refl (
          reads-aperture_or_focus (argument b'a' _ t) t
            (FakeCef.advance f clock float_of aperture_min aperture_max c))))

  reads-answered :
      (r : Option Text × Controller f) (next : Controller f → Served f) (rest : Bytes) (n : ℕ)
      → n ≤ r.1.reads
      → ((c : Controller f) → c.reads ≤ (next c).controller.reads)
      → n ≤ (answered f clock float_of aperture_min aperture_max r next rest).controller.reads
  reads-answered (none, c) next rest n h k = h
  reads-answered (some t, c) next rest n h k = omega (arith, k c)

  reads-serve_chunk :
      (buf b : Bytes) (c : Controller f)
      → c.reads ≤ (serve_chunk f clock float_of aperture_min aperture_max buf b c).controller.reads
  unfolding serve_chunk
  reads-serve_chunk buf [] c = omega arith
  reads-serve_chunk buf (b ∷ bs) c = elim (Bool-cases (b == b'\n')) [
    | inl e ↦ rw e (
        reads-answered (reply f clock float_of aperture_min aperture_max (strip buf) c)
          (λ c'. serve_chunk f clock float_of aperture_min aperture_max [] bs c') bs c.reads
          (omega (arith, reads-reply (strip buf) c)) (λ c'. reads-serve_chunk [] bs c'))
    | inr e ↦ rw e (reads-serve_chunk (buf ++ (b ∷ [])) bs c)
  ]

  module _ (remaining : f.F → ℕ → ℕ) (count : IsCount f clock remaining) where
    abbrev system : Os f
    system = pty f clock float_of aperture_min aperture_max remaining

    write_kept :
        (d : f.F) (b : Bytes) (s : Pty f)
        → system.readings d (system.write b s) ≤ system.readings d s
    write_kept d b s = elim (Bool-cases s.server.alive) [
      | inl e ↦ rw e (count.falls d _ _ (reads-serve_chunk s.server.buf b s.server.controller))
      | inr e ↦ rw e (omega arith)
    ]

    -- The clock of the pty passes every deadline.
    pub pty-IsPassing : IsPassing f system
    pty-IsPassing = record {
      reading = λ d s h. count.before d s.server.controller.reads h;
      monotonic_kept = λ d s. count.falls d _ _ (omega arith);
      write_kept = write_kept;
      select_kept = λ d t s. omega arith;
      read_kept = λ d n s. omega arith;
      sleep_kept = λ d t s. omega arith;
    }
