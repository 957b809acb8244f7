-- ===== src/Firmware/Main/Loop.antt =====
-- The loop of the firmware moves the focuser with the timer, and lags behind it.
use zwo_eaf_proxy.Base.{
  ℕ, suc, ◌+◌, ◌-◌, ◌*◌, ◌/◌, ◌%◌, ◌^◌, ◌≤◌, ◌<◌, ◌≡◌, refl, sym, ap, ◌∙◌, List, [], ◌∷◌, arith,
  length, le_or_lt, inl, inr,
}
use zwo_eaf_proxy.Base.Int.{pos}
use zwo_eaf_proxy.Firmware.Simulated.{SimulatedFocuser, advance}
use zwo_eaf_proxy.Firmware.Simulated.Advance.{advance-advance, advance_none, rate-advance}
use zwo_eaf_proxy.Firmware.Persona.{int32}
use zwo_eaf_proxy.Firmware.Main.{elapsed_ms, spend, loop_round, loop_rounds}

-- Readings of a timer that does not run backwards, less than 24 days apart
abbrev pub Ascending : ℕ → List ℕ → Type 0
Ascending last [] = Unit {0}
Ascending last (now ∷ readings) =
    (last ≤ now) × (now + 1000 ≤ last + 1000 * 2 ^ 31) × Ascending now readings

abbrev pub last_of : ℕ → List ℕ → ℕ
last_of last [] = last
last_of last (now ∷ readings) = last_of now readings

elapsed-none : (now last : ℕ) → now < last + 1000 → elapsed_ms now last ≡ pos 0
elapsed-none now last h = let e : (now - last) / 1000 ≡ 0 = omega arith in rw e refl

elapsed-some :
    (now last : ℕ) → now < last + 1000 * 2 ^ 31 → elapsed_ms now last ≡ pos ((now - last) / 1000)
elapsed-some now last h =
    let small : (now - last) / 1000 < 2 ^ 31 = omega arith in number ((now - last) / 1000) small
  where
    number : (n : ℕ) → n < 2 ^ 31 → int32 (n % 2 ^ 32) ≡ pos n
    number n h = ground arith

module _ {S : Type 0} (move : ℕ → S → S) where
  round_early :
      (now last : ℕ) (s : S) → now < last + 1000 → loop_round move now (last, s) ≡ (last, s)
  unfolding loop_round
  round_early now last s h = ap (λ e. spend move e now last s) (elapsed-none now last h)

  round_late :
      (now last : ℕ) (s : S)
      → last + 1000 ≤ now
      → now < last + 1000 * 2 ^ 31
      → loop_round move now (last, s) ≡ (now, move ((now - last) / 1000) s)
  unfolding loop_round
  round_late now last s h k =
      ap (λ e. spend move e now last s) (elapsed-some now last k)
      ∙ (let e : 0 < (now - last) / 1000 = omega arith in ground arith)

-- The readings that the rounds used, and how long the focuser was moved.
record Kept (r : ℕ) (last now : ℕ) (readings : List ℕ) (s : SimulatedFocuser) : Type 0 where
  total : ℕ
  moved : (loop_rounds advance readings (last, s)).1 ≡ advance total s
  not_ahead : last + 1000 * total ≤ last_of now readings
  not_behind : last_of now readings < last + 1000 * total + 1000 * suc (length readings)

kept :
    (r : ℕ) (readings : List ℕ) (last now : ℕ) (s : SimulatedFocuser)
    → s.rate ≡ pos r
    → last ≤ now
    → now < last + 1000
    → Ascending now readings
    → Kept r last now readings s
unfolding loop_rounds
kept r [] last now s e h k a = record {
  total = 0;
  moved = sym (advance_none r s e);
  not_ahead = omega arith;
  not_behind = omega arith;
}
kept r (x ∷ readings) last now s e h k a = elim (le_or_lt (last + 1000) x) [
  | inl late ↦
      let m = (x - last) / 1000 in
      let rest =
        kept r readings x x (advance m s) (rate-advance r m s e) (omega arith) (omega arith) a.2 in
      record {
        total = m + rest.total;
        moved =
            ap (λ q. (loop_rounds advance readings q).1)
              (round_late advance x last s late (omega arith))
            ∙ rest.moved
            ∙ advance-advance r m rest.total s e;
        not_ahead = let b = rest.not_ahead in omega arith;
        not_behind = let b = rest.not_behind in omega arith;
      }
  | inr early ↦
      let rest = kept r readings last x s e (omega arith) early a.2 in
      record {
        total = rest.total;
        moved =
            ap (λ q. (loop_rounds advance readings q).1) (round_early advance x last s early)
            ∙ rest.moved;
        not_ahead = rest.not_ahead;
        not_behind = let b = rest.not_behind in omega arith;
      }
]

-- From a reading on, at a timer that does not run backwards and whose readings are less than 2^31
-- milliseconds apart, the loop moves a focuser with a rate that is not negative as one advance of a whole
-- time does. That time is not longer than the timer's, and falls behind it by less than a millisecond for
-- each round, and one.
pub loop_rounds-lag :
    (r : ℕ) (readings : List ℕ) (start : ℕ) (s : SimulatedFocuser)
    → s.rate ≡ pos r
    → Ascending start readings
    → (total : ℕ) × ((loop_rounds advance readings (start, s)).1 ≡ advance total s)
      × (start + 1000 * total ≤ last_of start readings)
      × (last_of start readings < start + 1000 * total + 1000 * suc (length readings))
loop_rounds-lag r readings start s e a =
    let k = kept r readings start start s e (omega arith) (omega arith) a in
    (k.total, k.moved, k.not_ahead, k.not_behind)
