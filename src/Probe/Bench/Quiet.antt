-- ===== src/Probe/Bench/Quiet.antt =====
-- What the tool writes when no test is asked for.
use zwo_eaf_proxy.Base.{
  ℕ, zero, suc, ◌≤◌, arith, length, ◌≡◌, refl, sym, ap, ◌∙◌, Bool, true, false, Option, none, some,
  List, [], ◌∷◌, ◌++◌, take, append_assoc, append-nil, if◌then◌else◌,
}
use zwo_eaf_proxy.Base.Result.{Result, ok, err}
use zwo_eaf_proxy.Base.Bytes.{Bytes}
use zwo_eaf_proxy.Float.{Float}
use zwo_eaf_proxy.Text.{partition, Text, all_chars}
use zwo_eaf_proxy.Pinefeat.{
  get_version, get_position, is_moving_command, get_range, check, parse_position, parse_is_moving,
  to_int, frame, unframe, has_char, terminator, is_ascii, not_ascii, LinkError,
}
use zwo_eaf_proxy.Probe.{Os, ProbeError, no_reply, Action, pure, raise, lift, call, after, ◌>>=◌}
use zwo_eaf_proxy.Probe.Port.{
  timeout, collected, polled, poll, read_loop, read_line, write_line, ask,
}
use zwo_eaf_proxy.Probe.Bench.{identify, or_zero, parse_range}

-- The same system, which keeps everything that is written to the port.
abbrev pub traced : (f : Float) → Os f → Os f
traced f o = record {
  State = o.State × List Bytes;
  write = λ b s. (o.write b s.0, s.1 ++ (b ∷ []));
  select = λ t s. let (r, s') = o.select t s.0 in (r, (s', s.1));
  read = λ n s. let (r, s') = o.read n s.0 in (r, (s', s.1));
  monotonic = λ s. let (r, s') = o.monotonic s.0 in (r, (s', s.1));
  sleep = λ t s. (o.sleep t s.0, s.1);
  readings = λ d s. o.readings d s.0;
}

-- The lines of the four questions of `identify`.
abbrev pub questions : List Bytes
questions =
    (get_version ++ terminator)
    ∷ (get_range ++ terminator)
    ∷ (get_position ++ terminator)
    ∷ (is_moving_command ++ terminator)
    ∷ []

module _ (f : Float) (o : Os f) where
  -- A run from a trace wrote the first few of some lines, and all of them if it returned.
  abbrev pub WroteFrom :
      {A : Type 0} → List Bytes → List Bytes → Result ProbeError A × (o.State × List Bytes) → Type 0
  WroteFrom {A} lines l r =
      (n : ℕ) × (r.1.1 ≡ l ++ take n lines)
      × (n ≤ length lines)
      × ((a : A) → r.0 ≡ ok a → n ≡ length lines)

  abbrev pub Writes : {A : Type 0} → List Bytes → Action (o.State × List Bytes) A → Type 0
  Writes lines m = (s : o.State × List Bytes) → WroteFrom lines s.1 (m s)

  -- It leaves the trace as it was.
  abbrev pub Silent : {A : Type 0} → Action (o.State × List Bytes) A → Type 0
  Silent m = (s : o.State × List Bytes) → (m s).1.1 ≡ s.1

  after-Silent :
      {A B : Type 0} (l : List Bytes) (r : Result ProbeError A × (o.State × List Bytes))
      → (k : A → Action (o.State × List Bytes) B) → r.1.1 ≡ l
      → ((a : A) → Silent (k a))
      → (after r k).1.1 ≡ l
  after-Silent l (ok a, t) k h g = g a t ∙ h
  after-Silent l (err e, t) k h g = h

  bind-Silent :
      {A B : Type 0} (m : Action (o.State × List Bytes) A) (k : A → Action (o.State × List Bytes) B)
      → Silent m
      → ((a : A) → Silent (k a))
      → Silent (m >>= k)
  bind-Silent m k h g s = after-Silent s.1 (m s) k (h s) g

  lift-Silent : {A : Type 0} (r : Result LinkError A) → Silent (lift r)
  lift-Silent (ok a) s = refl
  lift-Silent (err e) s = refl

  if-Silent :
      {A : Type 0} (b : Bool) (m n : Action (o.State × List Bytes) A)
      → Silent m
      → Silent n
      → Silent (if b then m else n)
  if-Silent true m n h k = h
  if-Silent false m n h k = k

  collected-Silent :
      (again : Bytes → Action (o.State × List Bytes) Bytes) (buf chunk : Bytes)
      → ((b : Bytes) → Silent (again b))
      → Silent (collected f (traced f o) again buf chunk)
  collected-Silent again buf [] h = h buf
  collected-Silent again buf (c ∷ cs) h =
      if-Silent (has_char b'\n' (buf ++ (c ∷ cs))) _ _ (λ s. refl) (h (buf ++ (c ∷ cs)))

  polled-Silent :
      (again : Bytes → Action (o.State × List Bytes) Bytes) (buf : Bytes) (r : Option Bool)
      → ((b : Bytes) → Silent (again b))
      → Silent (polled f (traced f o) again buf r)
  polled-Silent again buf none h = λ s. refl
  polled-Silent again buf (some false) h = h buf
  polled-Silent again buf (some true) h =
      bind-Silent (call ((traced f o).read 64)) (collected f (traced f o) again buf) (λ s. refl)
        (λ chunk. collected-Silent again buf chunk h)

  poll-Silent :
      (again : Bytes → Action (o.State × List Bytes) Bytes) (d : f.F) (buf : Bytes)
      → ((b : Bytes) → Silent (again b))
      → Silent (poll f (traced f o) again d buf)
  poll-Silent again d buf h =
      bind-Silent (call (traced f o).monotonic)
        (λ now. call ((traced f o).select (f.sub d now)) >>= polled f (traced f o) again buf)
        (λ s. refl)
        (λ now.
          bind-Silent (call ((traced f o).select (f.sub d now))) (polled f (traced f o) again buf)
            (λ s. refl) (λ r. polled-Silent again buf r h))

  read_loop-Silent : (k : ℕ) (d : f.F) (buf : Bytes) → Silent (read_loop f (traced f o) k d buf)
  unfolding read_loop
  read_loop-Silent zero d buf = λ s. refl
  read_loop-Silent (suc k) d buf =
      let again = read_loop f (traced f o) k d in
      bind-Silent (call (traced f o).monotonic)
        (λ now. if f.le d now then raise (no_reply buf) else poll f (traced f o) again d buf)
        (λ s. refl)
        (λ now.
          if-Silent (f.le d now) (raise (no_reply buf)) (poll f (traced f o) again d buf)
            (λ s. refl) (poll-Silent again d buf (read_loop-Silent k d)))

  read_line-Silent : (wait : f.F) → Silent (read_line f (traced f o) wait)
  unfolding read_line
  read_line-Silent wait =
      bind-Silent (call (traced f o).monotonic)
        (λ now s.
          let d = f.add now wait in
          read_loop f (traced f o) (suc ((traced f o).readings d s)) d [] s)
        (λ s. refl) (λ now s. read_loop-Silent _ (f.add now wait) [] s)

  -- A reply is read, and decoded.
  pub reply-Silent :
      (wait : f.F) → Silent (read_line f (traced f o) wait >>= λ reply. lift (unframe reply))
  reply-Silent wait =
      bind-Silent (read_line f (traced f o) wait) (λ reply. lift (unframe reply))
        (read_line-Silent wait) (λ reply. lift-Silent (unframe reply))

  stop-Writes : {A : Type 0} (m : Action (o.State × List Bytes) A) → Silent m → Writes [] m
  stop-Writes m h s = (0, h s ∙ sym (append-nil s.1), omega arith, λ a e. refl)

  after-Writes :
      {A B : Type 0} (lines l : List Bytes) (r : Result ProbeError A × (o.State × List Bytes))
      → (k : A → Action (o.State × List Bytes) B) → r.1.1 ≡ l
      → ((a : A) → Writes lines (k a))
      → WroteFrom lines l (after r k)
  after-Writes lines l (ok a, t) k h g =
      let (n, e, few, all) = g a t in (n, e ∙ ap (λ x. x ++ take n lines) h, few, all)
  after-Writes lines l (err e, t) k h g = (0, h ∙ sym (append-nil l), omega arith, λ a q. cc)

  bind-Writes :
      {A B : Type 0} (lines : List Bytes) (m : Action (o.State × List Bytes) A)
      → (k : A → Action (o.State × List Bytes) B) → Silent m
      → ((a : A) → Writes lines (k a))
      → Writes lines (m >>= k)
  bind-Writes lines m k h g s = after-Writes lines s.1 (m s) k (h s) g

  -- A command that is asked is written, once, in front of what is written behind it.
  ask-Writes :
      {B : Type 0} (command : Text) (wait : f.F) (lines : List Bytes)
      → (k : Text → Action (o.State × List Bytes) B) → ((a : Text) → Writes lines (k a))
      → Writes ((command ++ terminator) ∷ lines) (ask f (traced f o) command wait >>= k)
  unfolding ask frame
  ask-Writes command wait lines k h s = by_text (all_chars is_ascii (command ++ terminator))
    where
      line : Bytes
      line = command ++ terminator

      written : o.State × List Bytes
      written = (o.write line s.0, s.1 ++ (line ∷ []))

      replied :
          WroteFrom lines written.1 (
            after (after (read_line f (traced f o) wait written) (λ reply. lift (unframe reply))) k)
      replied =
          bind-Writes lines (read_line f (traced f o) wait >>= λ reply. lift (unframe reply)) k
            (reply-Silent wait) h written

      by_text :
          (b : Bool)
          → WroteFrom (line ∷ lines) s.1 (
              after
                (after (lift (if b then ok line else err not_ascii) s) (λ l.
                  write_line f (traced f o) l >>= λ u.
                  read_line f (traced f o) wait >>= λ reply. lift (unframe reply)))
                k)
      by_text false = (0, sym (append-nil s.1), omega arith, λ a q. cc)
      by_text true =
          let (n, e, few, all) = replied in
          (
            suc n,
            e ∙ append_assoc s.1 (line ∷ []) (take n lines),
            omega arith,
            λ a q. ap suc (all a q),
          )

  asked-Writes :
      {A B : Type 0} (command : Text) (wait : f.F) (parse : Text → Result LinkError A)
      → (lines : List Bytes) (k : A → Action (o.State × List Bytes) B)
      → ((a : A) → Writes lines (k a))
      → Writes
          ((command ++ terminator) ∷ lines)
          (ask f (traced f o) command wait >>= λ reply. lift (parse reply) >>= k)
  asked-Writes command wait parse lines k h =
      ask-Writes command wait lines (λ reply. lift (parse reply) >>= k)
        (λ reply. bind-Writes lines (lift (parse reply)) k (lift-Silent (parse reply)) h)

  range-Silent : (t : Text) → Silent (parse_range f (traced f o) t)
  range-Silent t =
      bind-Silent (lift (to_int (or_zero (partition b'-' t).0)))
        (λ low. lift (to_int (partition b'-' t).1) >>= λ high. pure (low, high))
        (lift-Silent (to_int (or_zero (partition b'-' t).0)))
        (λ low.
          bind-Silent (lift (to_int (partition b'-' t).1)) (λ high. pure (low, high))
            (lift-Silent (to_int (partition b'-' t).1)) (λ high s. refl))

  pub identify-Writes : Writes questions (identify f (traced f o))
  unfolding identify
  identify-Writes = asked-Writes get_version (timeout f) check _ _ (λ version.
      asked-Writes get_range (timeout f) check _ _ (λ raw_range.
        asked-Writes get_position (timeout f) parse_position _ _ (λ position.
          asked-Writes is_moving_command (timeout f) parse_is_moving [] _ (λ moving.
            stop-Writes (parse_range f (traced f o) raw_range) (range-Silent raw_range)))))

  pub after_identify :
      {A B : Type 0} (lines l : List Bytes) (r : Result ProbeError A × (o.State × List Bytes))
      (b : B)
      → WroteFrom lines l r
      → WroteFrom lines l (after r (λ a. pure b))
  after_identify lines l (ok a, t) b (n, e, few, all) = (n, e, few, λ c q. all a refl)
  after_identify lines l (err e, t) b (n, h, few, all) = (n, h, few, λ c q. cc)
