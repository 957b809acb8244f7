-- ===== src/Probe/Port/Ends.antt =====
-- A reply, or a `TimeoutError`: the loop of `_read_line` has a deadline, which the clock passes.
use zwo_eaf_proxy.Base.{
  ℕ, zero, suc, ◌≤◌, ◌<◌, ◌≡◌, ◌≢◌, Bool, true, false, Option, none, some, [], ◌∷◌, ◌++◌, arith,
  if◌then◌else◌, Bool-cases, inl, inr,
}
use zwo_eaf_proxy.Base.Result.{Result, ok, err}
use zwo_eaf_proxy.Base.Bytes.{Bytes}
use zwo_eaf_proxy.Float.{Float}
use zwo_eaf_proxy.Text.{Text}
use zwo_eaf_proxy.Pinefeat.{LinkError, frame, unframe, has_char}
use zwo_eaf_proxy.Probe.{
  Os, ProbeError, no_reply, negative_timeout, out_of_fuel, Action, pure, raise, lift, call, after,
  ◌>>=◌,
}
use zwo_eaf_proxy.Probe.Port.{collected, polled, read_loop, read_line, write_line, ask}

-- The clock passes every deadline: a reading before the deadline leaves one reading fewer, and
-- nothing that the tool calls of the system sets the clock back.
pub record IsPassing (f : Float) (o : Os f) : Type 0 where
  pub reading :
      (d : f.F) (s : o.State)
      → f.le d (o.monotonic s).0 ≡ false
      → o.readings d (o.monotonic s).1 < o.readings d s
  pub monotonic_kept : (d : f.F) (s : o.State) → o.readings d (o.monotonic s).1 ≤ o.readings d s
  pub write_kept : (d : f.F) (b : Bytes) (s : o.State) → o.readings d (o.write b s) ≤ o.readings d s
  pub select_kept : (d t : f.F) (s : o.State) → o.readings d (o.select t s).1 ≤ o.readings d s
  pub read_kept : (d : f.F) (n : ℕ) (s : o.State) → o.readings d (o.read n s).1 ≤ o.readings d s
  pub sleep_kept : (d t : f.F) (s : o.State) → o.readings d (o.sleep t s) ≤ o.readings d s

module _ (f : Float) (o : Os f) where
  -- A run from a state did not end for want of fuel, nor set the clock back.
  abbrev pub EndedFrom : {A : Type 0} → o.State → Result ProbeError A × o.State → Type 0
  EndedFrom s r = (r.0 ≢ err out_of_fuel) × ((d : f.F) → o.readings d r.1 ≤ o.readings d s)

  abbrev pub Ends : {A : Type 0} → Action o.State A → Type 0
  Ends m = (s : o.State) → EndedFrom s (m s)

  -- The same from the states in which fewer than `k` readings are left before a deadline.
  abbrev pub EndsBelow : {A : Type 0} → f.F → ℕ → Action o.State A → Type 0
  EndsBelow d k m = (s : o.State) → o.readings d s < k → EndedFrom s (m s)

  after-Ended :
      {A B : Type 0} (s : o.State) (r : Result ProbeError A × o.State) (k : A → Action o.State B)
      → EndedFrom s r
      → ((a : A) → EndedFrom r.1 (k a r.1))
      → EndedFrom s (after r k)
  after-Ended s (ok a, t) k h g = ((g a).0, λ d. omega (arith, h.1 d, (g a).1 d))
  after-Ended s (err e, t) k h g = ((λ p. h.0 cc), h.1)

  pub bind-Ends :
      {A B : Type 0} (m : Action o.State A) (k : A → Action o.State B)
      → Ends m
      → ((a : A) → Ends (k a))
      → Ends (m >>= k)
  bind-Ends m k h g s = after-Ended s (m s) k (h s) (λ a. g a (m s).1)

  pub bind-EndsBelow :
      {A B : Type 0} (d : f.F) (n : ℕ) (m : Action o.State A) (k : A → Action o.State B)
      → Ends m
      → ((a : A) → EndsBelow d n (k a))
      → EndsBelow d n (m >>= k)
  bind-EndsBelow d n m k h g s lt =
      after-Ended s (m s) k (h s) (λ a. g a (m s).1 (omega (arith, (h s).1 d)))

  pub pure-Ends : {A : Type 0} (a : A) → Ends (pure a)
  pure-Ends a s = ((λ p. cc), λ d. omega arith)

  pub lift-Ends : {A : Type 0} (r : Result LinkError A) → Ends (lift r)
  lift-Ends (ok a) s = ((λ p. cc), λ d. omega arith)
  lift-Ends (err e) s = ((λ p. cc), λ d. omega arith)

  pub raise-Ends : {A : Type 0} (e : ProbeError) → e ≢ out_of_fuel → Ends {A = A} (raise e)
  raise-Ends e h s = ((λ p. h cc), λ d. omega arith)

  module _ (passing : IsPassing f o) where
    pub monotonic-Ends : Ends (call o.monotonic)
    monotonic-Ends s = ((λ p. cc), λ d. passing.monotonic_kept d s)

    -- A loop that reads the clock first, and goes on only before the deadline.
    pub before_deadline :
        {A : Type 0} (d : f.F) (k : ℕ) (late on_time : Action o.State A)
        → Ends late
        → EndsBelow d k on_time
        → EndsBelow d (suc k) (call o.monotonic >>= λ now. if f.le d now then late else on_time)
    before_deadline d k late on_time h g s lt = elim (Bool-cases (f.le d (o.monotonic s).0)) [
      | inl e ↦ rw e (
        (h (o.monotonic s).1).0,
        λ c. omega (arith, passing.monotonic_kept c s, (h (o.monotonic s).1).1 c),
      )
      | inr e ↦
          let r = g (o.monotonic s).1 (omega (arith, passing.reading d s e)) in
          rw e (r.0, λ c. omega (arith, passing.monotonic_kept c s, r.1 c))
    ]

    collected-Ends :
        (d : f.F) (k : ℕ) (again : Bytes → Action o.State Bytes) (buf chunk : Bytes)
        → ((b : Bytes) → EndsBelow d k (again b))
        → EndsBelow d k (collected f o again buf chunk)
    collected-Ends d k again buf [] h s lt = h buf s lt
    collected-Ends d k again buf (c ∷ cs) h s lt =
        elim (Bool-cases (has_char b'\n' (buf ++ (c ∷ cs)))) [
          | inl e ↦ rw e (pure-Ends (buf ++ (c ∷ cs)) s)
          | inr e ↦ rw e (h (buf ++ (c ∷ cs)) s lt)
        ]

    polled-Ends :
        (d : f.F) (k : ℕ) (again : Bytes → Action o.State Bytes) (buf : Bytes) (r : Option Bool)
        → ((b : Bytes) → EndsBelow d k (again b))
        → EndsBelow d k (polled f o again buf r)
    polled-Ends d k again buf none h = λ s lt. raise-Ends negative_timeout (λ e. cc) s
    polled-Ends d k again buf (some false) h = h buf
    polled-Ends d k again buf (some true) h =
        bind-EndsBelow d k (call (o.read 64)) (collected f o again buf)
          (λ s. ((λ p. cc), λ c. passing.read_kept c 64 s))
          (λ chunk. collected-Ends d k again buf chunk h)

    pub read_loop-Ends : (k : ℕ) (d : f.F) (buf : Bytes) → EndsBelow d k (read_loop f o k d buf)
    unfolding read_loop
    read_loop-Ends zero d buf = λ s lt. absurd (omega arith)
    read_loop-Ends (suc k) d buf =
        before_deadline d k (raise (no_reply buf)) _ (raise-Ends (no_reply buf) (λ e. cc)) (
          bind-EndsBelow d k (call o.monotonic) _ monotonic-Ends (λ now.
            bind-EndsBelow d k (call (o.select (f.sub d now))) (polled f o (read_loop f o k d) buf)
              (λ s. ((λ p. cc), λ c. passing.select_kept c (f.sub d now) s))
              (λ r. polled-Ends d k (read_loop f o k d) buf r (read_loop-Ends k d))))

    -- `ask` ends.
    pub ask-Ends : (command : Text) (wait : f.F) → Ends (ask f o command wait)
    unfolding ask read_line
    ask-Ends command wait = bind-Ends (lift (frame command)) _ (lift-Ends (frame command)) (λ line.
        bind-Ends (write_line f o line) _ (λ s. ((λ p. cc), λ d. passing.write_kept d line s))
          (λ u.
            bind-Ends (read_line f o wait) _
              (bind-Ends (call o.monotonic) _ monotonic-Ends (λ now s.
                let d = f.add now wait in
                read_loop-Ends (suc (o.readings d s)) d [] s (omega arith)))
              (λ reply. lift-Ends (unframe reply))))
