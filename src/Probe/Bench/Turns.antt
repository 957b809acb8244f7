-- ===== src/Probe/Bench/Turns.antt =====
-- The tool without a test asks its four questions in turn, and does no more.
use zwo_eaf_proxy.Base.{◌≡◌, refl, ◌∙◌, false, List, [], ◌∷◌, drop}
use zwo_eaf_proxy.Base.Result.{Result, ok, err}
use zwo_eaf_proxy.Base.Int.{ℤ}
use zwo_eaf_proxy.Base.Bytes.{Bytes}
use zwo_eaf_proxy.Float.{Float}
use zwo_eaf_proxy.Text.{partition, Text}
use zwo_eaf_proxy.Pinefeat.{
  get_version, get_position, is_moving_command, get_range, check, parse_position, parse_is_moving,
  to_int, LinkError,
}
use zwo_eaf_proxy.Probe.{Os, ProbeError, Action, pure, lift, after, ◌>>=◌, ◌>>◌}
use zwo_eaf_proxy.Probe.Port.{timeout, ask}
use zwo_eaf_proxy.Probe.Bench.{Options, identified, identify, or_zero, parse_range, bench}
use zwo_eaf_proxy.Probe.Bench.Quiet.{traced, questions, WroteFrom, identify-Writes, after_identify}

-- Whether a reply is accepted, whatever is made of it
abbrev pub accepted : {A : Type 0} → Result LinkError A → Result LinkError (Unit {0})
accepted (ok a) = ok tt
accepted (err e) = err e

-- The four questions, with what accepts a reply
abbrev pub asked : List (Text × (Text → Result LinkError (Unit {0})))
asked =
    (get_version, λ t. accepted (check t))
    ∷ (get_range, λ t. accepted (check t))
    ∷ (get_position, λ t. accepted (parse_position t))
    ∷ (is_moving_command, λ t. accepted (parse_is_moving t))
    ∷ []

module _ (f : Float) (o : Os f) where
  -- The questions one after the other, as long as the replies are accepted.
  unfoldable pub in_turn :
      List (Text × (Text → Result LinkError (Unit {0}))) → Action (o.State × List Bytes) (Unit {0})
  in_turn [] = pure tt
  in_turn ((command, accepts) ∷ qs) =
      ask f (traced f o) command (timeout f) >>= λ reply. lift (accepts reply) >> in_turn qs

  -- An action that asks first leaves the state of the questions if what follows does.
  asked-in_turn :
      {A B : Type 0} (command : Text) (parse : Text → Result LinkError A)
      → (qs : List (Text × (Text → Result LinkError (Unit {0}))))
      → (k : A → Action (o.State × List Bytes) B) (s : o.State × List Bytes)
      → ((a : A) (t : o.State × List Bytes) → (k a t).1 ≡ (in_turn qs t).1)
      → ((ask f (traced f o) command (timeout f) >>= λ reply. lift (parse reply) >>= k) s).1
        ≡ (in_turn ((command, λ t. accepted (parse t)) ∷ qs) s).1
  unfolding in_turn
  asked-in_turn command parse qs k s h = by_reply (ask f (traced f o) command (timeout f) s)
    where
      by_parse :
          (r : Result LinkError _) (t : o.State × List Bytes)
          → (after (lift r t) k).1 ≡ (after (lift (accepted r) t) (λ u. in_turn qs)).1
      by_parse (ok a) t = h a t
      by_parse (err e) t = refl

      by_reply :
          (r : Result ProbeError Text × (o.State × List Bytes))
          → (after r (λ reply. lift (parse reply) >>= k)).1
            ≡ (after r (λ reply. lift (accepted (parse reply)) >> in_turn qs)).1
      by_reply (ok reply, t) = by_parse (parse reply) t
      by_reply (err e, t) = refl

  range-state : (text : Text) (t : o.State × List Bytes) → (parse_range f (traced f o) text t).1 ≡ t
  range-state text t = by_low (to_int (or_zero (partition b'-' text).0))
    where
      by_high :
          (low : ℤ) (r : Result LinkError ℤ)
          → (after {B = ℤ × ℤ} (lift r t) (λ high. pure (low, high))).1 ≡ t
      by_high low (ok high) = refl
      by_high low (err e) = refl

      by_low :
          (r : Result LinkError ℤ)
          → (after {B = ℤ × ℤ}
              (lift r t)
              (λ low. lift (to_int (partition b'-' text).1) >>= λ high. pure (low, high))).1
            ≡ t
      by_low (ok low) = by_high low (to_int (partition b'-' text).1)
      by_low (err e) = refl

  identify-in_turn :
      (s : o.State × List Bytes) → (identify f (traced f o) s).1 ≡ (in_turn asked s).1
  unfolding identify in_turn
  identify-in_turn s = asked-in_turn get_version check (drop 1 asked) _ s (λ version s.
      asked-in_turn get_range check (drop 2 asked) _ s (λ raw_range s.
        asked-in_turn get_position parse_position (drop 3 asked) _ s (λ position s.
          asked-in_turn is_moving_command parse_is_moving [] _ s
            (λ moving t. range-state raw_range t))))

  -- Without `--test` the bench writes the questions for version, range, position and moving, in this order: all
  -- four if it returns, and otherwise the first few. It leaves the system as asking them does, each until the
  -- port or the reply of one fails.
  pub bench-Writes :
      (args : Options f) (s : o.State × List Bytes)
      → args.test ≡ false
      → WroteFrom f o questions s.1 (bench f (traced f o) args s)
        × ((bench f (traced f o) args s).1 ≡ (in_turn asked s).1)
  unfolding bench
  bench-Writes args s h = rw h (
    after_identify f o questions s.1 (identify f (traced f o) s) identified (identify-Writes f o s),
    then_pure (identify f (traced f o) s) ∙ identify-in_turn s,
  )
    where
      then_pure :
          {A : Type 0} (r : Result ProbeError A × (o.State × List Bytes))
          → (after r (λ a. pure identified)).1 ≡ r.1
      then_pure (ok a, t) = refl
      then_pure (err e, t) = refl
