-- ===== src/Probe/Fake/Motion.antt =====
-- The motion of the fake controller, which is that of the simulated focuser.
use zwo_eaf_proxy.Base.{ℕ, suc, ◌^◌, ◌<◌, ◌≡◌, refl, Option, arith, Bool-cases, inl, inr}
use zwo_eaf_proxy.Base.Int.{ℤ, pos, negsuc, ◌≤ℤ◌, le_antisymm_ℤ}
use zwo_eaf_proxy.Float.{Float, IsFloat, Le}
use zwo_eaf_proxy.Text.{Text}
use zwo_eaf_proxy.Simulated as Motor
use zwo_eaf_proxy.Simulated.{Simulated}
use zwo_eaf_proxy.Simulated.Advance.{IsMonotonic, advance_between}
use zwo_eaf_proxy.Simulated.Safety.{max_position, trunc_exact, trunc_range, of_int_range}
use zwo_eaf_proxy.FakeCef
use zwo_eaf_proxy.FakeCef.{Controller}
use zwo_eaf_proxy.Probe.Fake.{ticked}
use zwo_eaf_proxy.Probe.Fake.Ask.{later}

-- The position and the target are of four bytes, and the last reading lies before the next.
pub record IsFine (f : Float) (clock : ℕ → f.F) (c : Controller f) : Type 0 where
  pub last_before : Le f c.last (clock c.reads)
  pub position_low : Le f (f.of_int (pos 0)) c.position
  pub position_high : Le f c.position (f.of_int max_position)
  pub target_fits : c.target < 2 ^ 32

number_of : (z : ℤ) → pos 0 ≤ℤ z → z ≤ℤ max_position → (n : ℕ) × (n < 2 ^ 32) × (z ≡ pos n)
number_of (pos n) h k = (n, omega arith, refl)
number_of (negsuc n) h k = absurd (omega arith)

-- The controller moves as the simulated focuser does, at 1000 steps a second.
abbrev as_simulated : (f : Float) → Controller f → Simulated f
as_simulated f c = record {
  position = c.position;
  target = pos c.target;
  rate = f.of_int (pos 1000);
  temperature_centi = pos 0;
  last = c.last;
  reads = c.reads;
}

module _ (f : Float) (laws : IsFloat f) (clock : ℕ → f.F) (mono : IsMonotonic f clock)
    (float_of : Text → Option f.F) (aperture_min aperture_max : f.F) where
  abbrev pub advanced : Controller f → Controller f
  advanced c = FakeCef.advance f clock float_of aperture_min aperture_max c

  advance-as_simulated :
      (c : Controller f)
      → (advanced c).position ≡ (Motor.advance f clock (as_simulated f c)).position
  unfolding FakeCef.advance Motor.advance Motor.moved
  advance-as_simulated c = refl

  between :
      (c : Controller f) (lo hi : f.F)
      → IsFine f clock c
      → Le f lo c.position × Le f c.position hi
      → Le f lo (f.of_int (pos c.target)) × Le f (f.of_int (pos c.target)) hi
      → Le f lo (advanced c).position × Le f (advanced c).position hi
  between c lo hi h p t = rw (advance-as_simulated c) (
      advance_between f laws clock mono (as_simulated f c) lo hi
        (record {
          rate_nonneg = laws.of_int_mono (pos 0) (pos 1000) (omega arith);
          last_before = h.last_before;
        })
        p t)

  pub advance-IsFine : (c : Controller f) → IsFine f clock c → IsFine f clock (advanced c)
  unfolding FakeCef.advance
  advance-IsFine c h =
      let (lo, hi) =
        between c _ _ h (h.position_low, h.position_high)
          (of_int_range f laws (pos c.target) (omega (arith, h.target_fits))
            (omega (arith, h.target_fits))) in
      record {
        last_before = mono c.reads;
        position_low = lo;
        position_high = hi;
        target_fits = h.target_fits;
      }

  pub later-IsFine : (c : Controller f) → IsFine f clock c → IsFine f clock (later f c)
  later-IsFine c h = record {
    last_before = laws.le_trans _ _ _ h.last_before (
        laws.le_trans _ _ _ (mono c.reads)
          (laws.le_trans _ _ _ (mono (suc c.reads)) (mono (suc (suc c.reads)))));
    position_low = h.position_low;
    position_high = h.position_high;
    target_fits = h.target_fits;
  }

  pub ticked-IsFine :
      (c : Controller f) → IsFine f clock c → IsFine f clock (ticked f (suc c.reads) c)
  ticked-IsFine c h = record {
    last_before = laws.le_trans _ _ _ h.last_before (mono c.reads);
    position_low = h.position_low;
    position_high = h.position_high;
    target_fits = h.target_fits;
  }

  pub aimed-IsFine :
      (n : ℕ) (c : Controller f)
      → n < 2 ^ 32
      → IsFine f clock c
      → IsFine f clock (record c { target = n })
  aimed-IsFine n c k h = record {
    last_before = h.last_before;
    position_low = h.position_low;
    position_high = h.position_high;
    target_fits = k;
  }

  -- On its target, up to a fraction of a step, it stays there.
  pub stays :
      (c : Controller f)
      → IsFine f clock c
      → f.trunc c.position ≡ pos c.target
      → f.trunc (advanced c).position ≡ pos c.target
  stays c h e =
      let exact : f.trunc (f.of_int (pos c.target)) ≡ pos c.target =
        trunc_exact f laws (pos c.target) (omega (arith, h.target_fits))
          (omega (arith, h.target_fits)) in
      elim (Bool-cases (f.le (f.of_int (pos c.target)) c.position)) [
        | inl above ↦
            let (lo, hi) = between c _ _ h (above, laws.le_refl _) (laws.le_refl _, above) in
            le_antisymm_ℤ _ _ (rw e at (laws.trunc_mono _ _ hi))
              (rw exact at (laws.trunc_mono _ _ lo))
        | inr below ↦
            let under = laws.le_total _ _ below in
            let (lo, hi) = between c _ _ h (laws.le_refl _, under) (under, laws.le_refl _) in
            le_antisymm_ℤ _ _ (rw exact at (laws.trunc_mono _ _ hi))
              (rw e at (laws.trunc_mono _ _ lo))
      ]

  -- The position, as an int, is a number of four bytes.
  pub position_number :
      (c : Controller f) → IsFine f clock c → (n : ℕ) × (n < 2 ^ 32) × (f.trunc c.position ≡ pos n)
  position_number c h =
      let (lo, hi) = trunc_range f laws c.position h.position_low h.position_high in
      number_of (f.trunc c.position) lo hi
