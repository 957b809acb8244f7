-- ===== src/Probe/Fake/Halt.antt =====
-- The pseudo-halt of the probe on the fake controller stops it where it was read to be.
use zwo_eaf_proxy.Base.{
  ℕ, zero, suc, ◌^◌, ◌≤◌, ◌<◌, ◌≡◌, refl, sym, ap, ◌∙◌, Bool, true, false, not, ◌&&◌, Option, arith,
  Bool-cases, inl, inr, if◌then◌else◌,
}
use zwo_eaf_proxy.Base.Int.{ℤ, pos, eqb_ℤ, eqb_ℤ→eq}
use zwo_eaf_proxy.Base.Result.{Result, ok, err}
use zwo_eaf_proxy.Float.{Float, IsFloat}
use zwo_eaf_proxy.Text.{Text}
use zwo_eaf_proxy.Pinefeat.{pinefeat_error, error}
use zwo_eaf_proxy.Simulated.Advance.{IsMonotonic}
use zwo_eaf_proxy.FakeCef
use zwo_eaf_proxy.FakeCef.{Controller}
use zwo_eaf_proxy.Probe.{
  Os, ProbeError, link_error, no_reply, still_moving, finished_early, out_of_fuel, negative_timeout,
  no_cycles, bad_option, no_port, after, pure, raise, ◌>>=◌,
}
use zwo_eaf_proxy.Probe.Port.{timeout}
use zwo_eaf_proxy.Probe.Bench.{
  Cycle, overshoot, settle_loop, settle, pseudo_halt, retarget_cycle, ask_moving, ask_position,
  command_move,
}
use zwo_eaf_proxy.Probe.Fake.{Pty, pty, at_rest, ticked}
use zwo_eaf_proxy.Probe.Fake.Ask.{IsPrompt, later}
use zwo_eaf_proxy.Probe.Fake.Talk.{ask_moving_lem, ask_position_lem, command_move_lem}
use zwo_eaf_proxy.Probe.Fake.Motion.{
  IsFine, later-IsFine, advance-IsFine, ticked-IsFine, aimed-IsFine, stays, position_number,
}

-- The lens is at its target, as the controller sees it; or it is not.
abbrev pub AtTarget : (f : Float) → Controller f → Type 0
AtTarget f c = eqb_ℤ (f.trunc c.position) (pos c.target) ≡ true

abbrev pub Moves : (f : Float) → Controller f → Type 0
Moves f c = eqb_ℤ (f.trunc c.position) (pos c.target) ≡ false

-- The last clock reading lies at a deadline or behind it.
abbrev pub Passed : (f : Float) → (ℕ → f.F) → f.F → Controller f → Type 0
Passed f clock deadline c = (j : ℕ) × (c.reads ≡ suc j) × (f.le deadline (clock j) ≡ true)

-- The last clock reading lies thirty seconds or more behind one from the `first` on.
abbrev pub TimedOut : (f : Float) → (ℕ → f.F) → ℕ → Controller f → Type 0
TimedOut f clock first c =
    (i : ℕ) × (first ≤ i) × Passed f clock (f.add (clock i) (f.of_int (pos 30))) c

-- How `settle` ends on the fake controller: at its target, or behind its deadline.
abbrev pub Settles : (f : Float) → (ℕ → f.F) → f.F → ℕ → Result ProbeError ℤ × Pty f → Type 0
Settles f clock deadline n (ok z, s) = z ≡ pos n
Settles f clock deadline n (err still_moving, s) = Passed f clock deadline s.server.controller
Settles f clock deadline n (err out_of_fuel, s) = Unit {0}
Settles f clock deadline n (err e, s) = ⊥

-- How a cycle towards `n` ends, from the clock reading `first` on: the lens stopped exactly where it was
-- read to be; or the lens was at its target `n` before the halt; or thirty seconds went by in a settle; or
-- the controller, which takes no new target while it moves, answered with an error, and does move.
abbrev pub Halts : (f : Float) → (ℕ → f.F) → ℕ → ℕ → Bool → Result ProbeError Cycle × Pty f → Type 0
Halts f clock first n accepts (ok cycle, s) = overshoot cycle ≡ pos 0
Halts f clock first n accepts (err (finished_early target), s) =
    (target ≡ pos n) × (s.server.controller.target ≡ n) × AtTarget f s.server.controller
Halts f clock first n accepts (err still_moving, s) = TimedOut f clock first s.server.controller
Halts f clock first n accepts (err (link_error e), s) =
    (accepts ≡ false) × (e ≡ pinefeat_error error) × Moves f s.server.controller
Halts f clock first n accepts (err out_of_fuel, s) = Unit {0}
Halts f clock first n accepts (err e, s) = ⊥

module _ (f : Float) (laws : IsFloat f) (clock : ℕ → f.F) (mono : IsMonotonic f clock)
    (float_of : Text → Option f.F) (aperture_min aperture_max : f.F) (remaining : f.F → ℕ → ℕ)
    (prompt : IsPrompt f clock (timeout f)) where
  abbrev system : Os f
  system = pty f clock float_of aperture_min aperture_max remaining

  abbrev step : Controller f → Controller f
  step c = FakeCef.advance f clock float_of aperture_min aperture_max c

  abbrev in_motion : Controller f → Bool
  in_motion c = FakeCef.moving f clock float_of aperture_min aperture_max c

  target-advance : (c : Controller f) → (step c).target ≡ c.target
  unfolding FakeCef.advance
  target-advance c = refl

  reads-advance : (c : Controller f) → (step c).reads ≡ suc c.reads
  unfolding FakeCef.advance
  reads-advance c = refl

  still : (b : Bool) → not b ≡ false → b ≡ true
  still true e = refl
  still false e = cc

  accepts-advance : (c : Controller f) → (step c).accepts_retarget ≡ c.accepts_retarget
  unfolding FakeCef.advance
  accepts-advance c = refl

  -- A controller that does not move is on its target, and is still there when it is asked again.
  rests :
      (d : f.F) (n : ℕ) (c : Controller f)
      → IsFine f clock c
      → c.target ≡ n
      → FakeCef.moving f clock float_of aperture_min aperture_max c ≡ false
      → Settles f clock d n (ask_position f system (at_rest f (later f c)))
  rests d n c h t m =
      let there =
        stays f laws clock mono float_of aperture_min aperture_max (later f c)
          (later-IsFine f laws clock mono float_of aperture_min aperture_max c h)
          (eqb_ℤ→eq _ _ (still (eqb_ℤ (f.trunc c.position) (pos c.target)) m)) in
      rw
        (ask_position_lem f clock float_of aperture_min aperture_max remaining prompt c.target
          (later f c) h.target_fits there)
        (ap pos t)

  settle_loop-Settles :
      (k : ℕ) (d : f.F) (n : ℕ) (c : Controller f)
      → IsFine f clock c
      → c.target ≡ n
      → Settles f clock d n (settle_loop f system k d (at_rest f c))
  unfolding settle_loop
  settle_loop-Settles zero d n c h t = tt
  settle_loop-Settles (suc k) d n c h t = elim (Bool-cases (f.le d (clock c.reads))) [
    | inl late ↦ rw late (c.reads, refl, late)
    | inr early ↦ rw early (
        let c' = ticked f (suc c.reads) c in
        let h' =
          advance-IsFine f laws clock mono float_of aperture_min aperture_max c'
            (ticked-IsFine f laws clock mono float_of aperture_min aperture_max c h) in
        rw (ask_moving_lem f clock float_of aperture_min aperture_max remaining prompt c')
          (elim (Bool-cases (FakeCef.moving f clock float_of aperture_min aperture_max (step c'))) [
            | inl m ↦ rw m (
                settle_loop-Settles k d n (later f (step c'))
                  (later-IsFine f laws clock mono float_of aperture_min aperture_max (step c') h')
                  (target-advance c' ∙ t))
            | inr m ↦ rw m (rests d n (step c') h' (target-advance c' ∙ t) m)
          ]))
  ]

  settle-Settles :
      (n : ℕ) (c : Controller f)
      → IsFine f clock c
      → c.target ≡ n
      → Settles f clock
          (f.add (clock c.reads) (f.of_int (pos 30)))
          n
          (settle f system (at_rest f c))
  unfolding settle
  settle-Settles n c h t =
      settle_loop-Settles _ _ n (ticked f (suc c.reads) c)
        (ticked-IsFine f laws clock mono float_of aperture_min aperture_max c h) t

  -- The settle behind the pseudo-halt, at the position that was read.
  cycle-Halts :
      (first m n i : ℕ) (accepts : Bool) (r : Result ProbeError ℤ × Pty f)
      → first ≤ i
      → Settles f clock (f.add (clock i) (f.of_int (pos 30))) n r
      → Halts f clock first m accepts
          (after r (λ z. pure (record { commanded_at = pos n; stopped_at = z })))
  cycle-Halts first m n i accepts (ok z, s) b h = rw h (ground arith)
  cycle-Halts first m n i accepts (err still_moving, s) b h = (i, b, h)
  cycle-Halts first m n i accepts (err out_of_fuel, s) b h = tt
  cycle-Halts first m n i accepts (err (link_error e), s) b h = absurd h
  cycle-Halts first m n i accepts (err (no_reply t), s) b h = absurd h
  cycle-Halts first m n i accepts (err (finished_early t), s) b h = absurd h
  cycle-Halts first m n i accepts (err negative_timeout, s) b h = absurd h
  cycle-Halts first m n i accepts (err no_cycles, s) b h = absurd h
  cycle-Halts first m n i accepts (err bad_option, s) b h = absurd h
  cycle-Halts first m n i accepts (err no_port, s) b h = absurd h

  moves : (m a : Bool) → (not m && not a) ≡ true → m ≡ false
  moves true a h = cc
  moves false a h = refl

  refuses : (m a b : Bool) → (m && not a) ≡ true → a ≡ b → b ≡ false
  refuses true true b h e = cc
  refuses true false b h e = sym e
  refuses false a b h e = cc

  abbrev step_fine : (c : Controller f) → IsFine f clock c → IsFine f clock (step c)
  step_fine c h = advance-IsFine f laws clock mono float_of aperture_min aperture_max c h

  abbrev aimed_fine :
      (n : ℕ) (c : Controller f)
      → n < 2 ^ 32
      → IsFine f clock c
      → IsFine f clock (later f (record c { target = n }))
  aimed_fine n c k h =
      later-IsFine f laws clock mono float_of aperture_min aperture_max (record c { target = n })
        (aimed-IsFine f laws clock mono float_of aperture_min aperture_max n c k h)

  -- What the controller answers to the retarget, and the settle.
  retargeted-Halts :
      (first m n : ℕ) (a : Bool) (c : Controller f)
      → n < 2 ^ 32
      → IsFine f clock c
      → c.accepts_retarget ≡ a
      → first ≤ c.reads
      → Halts f clock first m a (
          after
            (command_move f system (pos n) (at_rest f c))
            (λ t. settle f system >>= λ z. pure (record { commanded_at = pos n; stopped_at = z })))
  retargeted-Halts first m n a c k h e g =
      rw (command_move_lem f clock float_of aperture_min aperture_max remaining prompt n c k)
        (elim (Bool-cases (in_motion (step c) && not (step c).accepts_retarget)) [
          | inl b ↦ rw b (refuses _ _ a b (accepts-advance c ∙ e), refl, moves _ _ b)
          | inr b ↦ rw b (
              cycle-Halts first m n _ a
                (settle f system (at_rest f (later f (record (step c) { target = n }))))
                (let e = reads-advance c in omega arith)
                (settle-Settles n (later f (record (step c) { target = n }))
                  (aimed_fine n (step c) k (step_fine c h)) refl))
        ])

  halt-Halts :
      (first m : ℕ) (a : Bool) (c : Controller f)
      → IsFine f clock c
      → c.accepts_retarget ≡ a
      → first ≤ c.reads
      → Halts f clock first m a (pseudo_halt f system (at_rest f c))
  unfolding pseudo_halt
  halt-Halts first m a c h e g =
      let (n, k, p) =
        position_number f laws clock mono float_of aperture_min aperture_max (step c)
          (step_fine c h) in
      rw (ask_position_lem f clock float_of aperture_min aperture_max remaining prompt n c k p) (
        retargeted-Halts first m n a (later f (step c)) k
          (later-IsFine f laws clock mono float_of aperture_min aperture_max (step c)
            (step_fine c h))
          (accepts-advance c ∙ e) (let r = reads-advance c in omega arith))

  -- The query in between, and the pseudo-halt if the move is under way.
  under_way-Halts :
      (first n : ℕ) (a : Bool) (c : Controller f)
      → IsFine f clock c
      → c.accepts_retarget ≡ a
      → first ≤ c.reads
      → c.target ≡ n
      → Halts f clock first n a (
          after
            (ask_moving f system (at_rest f c))
            (λ moving. if moving then pseudo_halt f system else raise (finished_early (pos n))))
  under_way-Halts first n a c h e g t =
      rw (ask_moving_lem f clock float_of aperture_min aperture_max remaining prompt c)
        (elim (Bool-cases (in_motion (step c))) [
          | inl b ↦ rw b (
              halt-Halts first n a (later f (step c))
                (later-IsFine f laws clock mono float_of aperture_min aperture_max (step c)
                  (step_fine c h))
                (accepts-advance c ∙ e) (let r = reads-advance c in omega arith))
          | inr b ↦ rw b (refl, target-advance c ∙ t, still _ b)
        ])

  pub cycle_halted :
      (n : ℕ) (delay : f.F) (a : Bool) (c : Controller f)
      → n < 2 ^ 32
      → IsFine f clock c
      → c.accepts_retarget ≡ a
      → Halts f clock c.reads n a (retarget_cycle f system (pos n) delay (at_rest f c))
  unfolding retarget_cycle
  cycle_halted n delay a c k h e =
      rw (command_move_lem f clock float_of aperture_min aperture_max remaining prompt n c k)
        (elim (Bool-cases (in_motion (step c) && not (step c).accepts_retarget)) [
          | inl b ↦ rw b (refuses _ _ a b (accepts-advance c ∙ e), refl, moves _ _ b)
          | inr b ↦ rw b (
              under_way-Halts c.reads n a (later f (record (step c) { target = n }))
                (aimed_fine n (step c) k (step_fine c h)) (accepts-advance c ∙ e)
                (let r = reads-advance c in omega arith) refl)
        ])
