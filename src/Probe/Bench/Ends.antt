-- ===== src/Probe/Bench/Ends.antt =====
-- The tool comes to an end: every loop has a deadline, which the clock passes.
use zwo_eaf_proxy.Base.{
  ℕ, zero, suc, ◌≢◌, Bool, true, false, not, List, [], ◌∷◌, arith, if◌then◌else◌,
}
use zwo_eaf_proxy.Base.Int.{ℤ, pos, pos_part}
use zwo_eaf_proxy.Base.Result.{Result, err}
use zwo_eaf_proxy.Base.Bytes.{bytes_eq}
use zwo_eaf_proxy.Float.{Float}
use zwo_eaf_proxy.Text.{partition, Text}
use zwo_eaf_proxy.Pinefeat
use zwo_eaf_proxy.Pinefeat.{
  ok_text, get_version, get_position, is_moving_command, get_range, calibrate, check,
  parse_position, parse_is_moving, to_int,
}
use zwo_eaf_proxy.Probe.{
  Os, still_moving, finished_early, no_cycles, out_of_fuel, Action, pure, raise, lift, call, after,
  ◌>>=◌,
}
use zwo_eaf_proxy.Probe.Port.{timeout, ask}
use zwo_eaf_proxy.Probe.Port.Ends.{
  IsPassing, Ends, EndsBelow, bind-Ends, bind-EndsBelow, pure-Ends, lift-Ends, raise-Ends,
  monotonic-Ends, before_deadline, ask-Ends,
}
use zwo_eaf_proxy.Probe.Bench.{
  Cycle, Options, refused, no_focuser, identified, judged, usable, or_zero, parse_range, identify,
  ask_moving, ask_position, command_move, pause, settled, settle_loop, settle, pseudo_halt,
  retarget_cycle, judge, run_cycles, measure, calibrated, bench,
}

module _ (f : Float) (o : Os f) (passing : IsPassing f o) where
  -- A question, and what the dialect makes of the reply.
  asked-Ends :
      {A : Type 0} (command : Text) (wait : f.F) (parse : Text → Result Pinefeat.LinkError A)
      → Ends f o (ask f o command wait >>= λ reply. lift (parse reply))
  asked-Ends command wait parse =
      bind-Ends f o (ask f o command wait) _ (ask-Ends f o passing command wait)
        (λ reply. lift-Ends f o (parse reply))

  move-Ends : (target : ℤ) → Ends f o (command_move f o target)
  move-Ends target = asked-Ends (Pinefeat.move_to target) (timeout f) check

  pause-Ends : (d : f.F) → Ends f o (pause f o d)
  pause-Ends d s = ((λ p. cc), λ c. passing.sleep_kept c d s)

  range-Ends : (t : Text) → Ends f o (parse_range f o t)
  range-Ends t =
      bind-Ends f o (lift (to_int (or_zero (partition b'-' t).0))) _ (lift-Ends f o _) (λ low.
        bind-Ends f o (lift (to_int (partition b'-' t).1)) _ (lift-Ends f o _)
          (λ high. pure-Ends f o (low, high)))

  identify-Ends : Ends f o (identify f o)
  unfolding identify
  identify-Ends = bind-Ends f o (ask f o get_version (timeout f)) _ (ask-Ends f o passing _ _) (λ a.
      bind-Ends f o (lift (check a)) _ (lift-Ends f o (check a)) (λ v.
        bind-Ends f o (ask f o get_range (timeout f)) _ (ask-Ends f o passing _ _) (λ b.
          bind-Ends f o (lift (check b)) _ (lift-Ends f o (check b)) (λ r.
            bind-Ends f o (ask f o get_position (timeout f)) _ (ask-Ends f o passing _ _) (λ c.
              bind-Ends f o (lift (parse_position c)) _ (lift-Ends f o _) (λ p.
                bind-Ends f o (ask f o is_moving_command (timeout f)) _ (ask-Ends f o passing _ _)
                  (λ d.
                    bind-Ends f o (lift (parse_is_moving d)) _ (lift-Ends f o _)
                      (λ m. range-Ends r))))))))

  settled-Ends :
      (d : f.F) (k : ℕ) (again : Action o.State ℤ) (moving : Bool)
      → EndsBelow f o d k again
      → EndsBelow f o d k (settled f o again moving)
  settled-Ends d k again false h = λ s lt. asked-Ends get_position (timeout f) parse_position s
  settled-Ends d k again true h = bind-EndsBelow f o d k (pause f o _) _ (pause-Ends _) (λ u. h)

  settle_loop-Ends : (k : ℕ) (d : f.F) → EndsBelow f o d k (settle_loop f o k d)
  unfolding settle_loop
  settle_loop-Ends zero d = λ s lt. absurd (omega arith)
  settle_loop-Ends (suc k) d =
      before_deadline f o passing d k (raise still_moving) _ (raise-Ends f o still_moving (λ e. cc))
        (bind-EndsBelow f o d k (ask_moving f o) _
          (asked-Ends is_moving_command (timeout f) parse_is_moving)
          (λ moving. settled-Ends d k (settle_loop f o k d) moving (settle_loop-Ends k d)))

  settle-Ends : Ends f o (settle f o)
  unfolding settle
  settle-Ends = bind-Ends f o (call o.monotonic) _ (monotonic-Ends f o passing) (λ now s.
      let d = f.add now (f.of_int (pos 30)) in
      settle_loop-Ends (suc (o.readings d s)) d s (omega arith))

  halt-Ends : Ends f o (pseudo_halt f o)
  unfolding pseudo_halt
  halt-Ends =
      bind-Ends f o (ask_position f o) _ (asked-Ends get_position (timeout f) parse_position) (λ p.
        bind-Ends f o (command_move f o p) _ (move-Ends p)
          (λ t. bind-Ends f o (settle f o) _ settle-Ends (λ q. pure-Ends f o _)))

  pub cycle-Ends : (target : ℤ) (delay : f.F) → Ends f o (retarget_cycle f o target delay)
  unfolding retarget_cycle
  cycle-Ends target delay =
      bind-Ends f o _ _
        (bind-Ends f o _ _
          (bind-Ends f o (command_move f o target) _ (move-Ends target) (λ t. pause-Ends delay))
          (λ u. asked-Ends is_moving_command (timeout f) parse_is_moving))
        (λ moving. branch moving)
    where
      branch :
          (moving : Bool)
          → Ends f o (if moving then pseudo_halt f o else raise (finished_early target))
      branch true = halt-Ends
      branch false = raise-Ends f o (finished_early target) (λ e. cc)

  cycles-Ends :
      (n : ℕ) (low high start travel : ℤ) (delay : f.F)
      → Ends f o (run_cycles f o n low high start travel delay)
  unfolding run_cycles
  cycles-Ends zero low high start travel delay = pure-Ends f o []
  cycles-Ends (suc n) low high start travel delay =
      bind-Ends f o (retarget_cycle f o _ delay) _ (cycle-Ends _ delay) (λ c.
        bind-Ends f o (command_move f o start) _ (move-Ends start) (λ t.
          bind-Ends f o (settle f o) _ settle-Ends (λ q.
            bind-Ends f o (run_cycles f o n low high start travel delay) _
              (cycles-Ends n low high start travel delay) (λ r. pure-Ends f o (c ∷ r)))))

  judge-Ends : (cs : List Cycle) → Ends f o (λ s. after (judge cs, s) (λ v. pure (judged v)))
  unfolding judge
  judge-Ends [] = raise-Ends f o no_cycles (λ e. cc)
  judge-Ends (c ∷ cs) = pure-Ends f o _

  measure-Ends : (args : Options f) (t : Text) → Ends f o (measure f o args t)
  unfolding measure
  measure-Ends args t = bind-Ends f o (parse_range f o t) _ (range-Ends t) (λ r.
      bind-Ends f o (settle f o) _ settle-Ends (λ start.
        bind-Ends f o _ _ (cycles-Ends (pos_part args.cycles) r.0 r.1 start args.travel args.delay)
          judge-Ends))

  if-Ends :
      {A : Type 0} (b : Bool) (m n : Action o.State A)
      → Ends f o m
      → Ends f o n
      → Ends f o (if b then m else n)
  if-Ends true m n h k = h
  if-Ends false m n h k = k

  calibrated-Ends : (args : Options f) (t : Text) → Ends f o (calibrated f o args t)
  unfolding calibrated
  calibrated-Ends args t = if-Ends (not (bytes_eq t ok_text)) _ _ (pure-Ends f o refused) (
      bind-Ends f o (ask f o get_range (timeout f)) _ (ask-Ends f o passing _ _) (λ a.
        bind-Ends f o (lift (check a)) _ (lift-Ends f o (check a))
          (λ r. if-Ends (not (usable r)) _ _ (pure-Ends f o no_focuser) (measure-Ends args r))))

  -- If every deadline is passed after finitely many readings of the clock, whatever the tool calls
  -- in between, the bench test ends, with an outcome or an exception: no loop of it runs for ever,
  -- whatever the controller replies.
  pub bench_ends : (args : Options f) (s : o.State) → (bench f o args s).0 ≢ err out_of_fuel
  unfolding bench
  bench_ends args s =
      (bind-Ends f o (identify f o) _ identify-Ends
        (λ r.
          if-Ends (not args.test) _ _ (pure-Ends f o identified) (
            bind-Ends f o (ask f o calibrate _) _ (ask-Ends f o passing _ _)
              (calibrated-Ends args)))
        s).0
