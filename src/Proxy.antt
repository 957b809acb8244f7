-- ===== src/Proxy.antt =====
-- host/src/zwoproxy/cli.py, `_persona`: a simulated focuser behind an emulated EAF.
pub mod Command
mod Tests
use zwo_eaf_proxy.Base.{ℕ, ◌^◌, ◌≤◌, ◌<◌, ◌≡◌, false, Option, none, some, List, length, All}
use zwo_eaf_proxy.Base.Int.{ℤ, pos}
use zwo_eaf_proxy.Base.Result.{Result, ok, ◌>>=◌, Yields}
use zwo_eaf_proxy.Base.Bytes.{Bytes, IsByte}
use zwo_eaf_proxy.Float.{Float, IsFloat}
use zwo_eaf_proxy.Simulated.{Simulated, simulated, init, RateError}
use zwo_eaf_proxy.Simulated.Advance.{IsMonotonic}
use zwo_eaf_proxy.Simulated.Safety.{IsSafe, contract, init-IsSafe}
use zwo_eaf_proxy.Persona.Eaf.{Version, firmware_version, placeholder_serial}
use zwo_eaf_proxy.Persona.Protocol.Encode.{IsByteInt}
use zwo_eaf_proxy.Persona.Device.{Device, Request, post_init, serve}
use zwo_eaf_proxy.Persona.Device.Safety.{
  AllAnswered, IsReady, IsWire, serve-Answers, post_init-IsReady,
}

-- The parsed arguments of the `persona` command.
pub record Args (f : Float) : Type 0 where
  pub position : ℤ
  pub rate : f.F
  pub temperature : f.F
  pub firmware_version_arg : Option Version
  pub serial_arg : Option Bytes

-- `kwargs` passes an argument on only if it was given.
abbrev pub or_default {ℓ} : {A : Type ℓ} → Option A → A → A
or_default none a = a
or_default (some b) a = b

module _ (f : Float) (clock : ℕ → f.F) where
  -- The device that `_persona` emulates, or the error of the focuser's `__init__`.
  unfoldable pub persona : Args f → Result RateError (Device f (simulated f clock))
  persona a = do
    focuser ← init f clock a.position a.rate (some a.temperature) 0
    ok (
        post_init f (simulated f clock) focuser (or_default a.serial_arg placeholder_serial)
          a.temperature (or_default a.firmware_version_arg firmware_version))

  -- Arguments in the ranges that the command checks, and a start of four bytes.
  pub record IsUsable (a : Args f) : Type 0 where
    pub start : ℕ
    pub start_is : a.position ≡ pos start
    pub start_fits : start < 2 ^ 32
    pub rate_positive : f.le a.rate (f.of_int (pos 0)) ≡ false
    pub serial_bytes : All IsByte (or_default a.serial_arg placeholder_serial)
    pub serial_size : length (or_default a.serial_arg placeholder_serial) ≤ 12
    pub major : IsByteInt (or_default a.firmware_version_arg firmware_version).0
    pub minor : IsByteInt (or_default a.firmware_version_arg firmware_version).1
    pub patch : IsByteInt (or_default a.firmware_version_arg firmware_version).2

  module _ (laws : IsFloat f) (mono : IsMonotonic f clock) where
    -- Started with usable arguments, the emulated device answers every request of a session: no
    -- bytes and no order of requests make a handler raise, however the clock goes on.
    pub persona_answers :
        (a : Args f) (qs : List Request)
        → IsUsable a
        → All IsWire qs
        → Yields (λ d. AllAnswered qs (serve f (simulated f clock) qs d).0) (persona a)
    unfolding persona
    persona_answers a qs u w = built (init f clock a.position a.rate (some a.temperature) 0) (
        rw u.start_is (
          init-IsSafe f laws clock mono u.start a.rate (some a.temperature) 0 u.start_fits
            u.rate_positive))
      where
        built :
            (r : Result RateError (Simulated f))
            → Yields (IsSafe f clock) r
            → Yields
                (λ d. AllAnswered qs (serve f (simulated f clock) qs d).0)
                (r >>= (λ s. ok (
                  post_init f
                    (simulated f clock)
                    s
                    (or_default a.serial_arg placeholder_serial)
                    a.temperature
                    (or_default a.firmware_version_arg firmware_version))))
        built (Result.err e) h = absurd h
        built (ok s) h =
            (serve-Answers f (simulated f clock) (contract f laws clock mono) qs _ w (
              post_init-IsReady f (simulated f clock) (contract f laws clock mono) s _ a.temperature
                _ h u.serial_bytes u.serial_size u.major u.minor u.patch)).0
