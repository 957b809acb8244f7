-- ===== src/Firmware/Persona/Agree.antt =====
-- The persona of the firmware answers the host as the Python device does.
use zwo_eaf_proxy.Base.{
  ℕ, ◌^◌, ◌%◌, ◌<◌, ◌≡◌, refl, ap, ◌∙◌, Option, none, some, ◌∷◌, arith, All, take, if◌then◌else◌,
}
use zwo_eaf_proxy.Base.Int.{ℤ, pos, pos_part, eqb_ℤ}
use zwo_eaf_proxy.Base.Result.{Result, ok, err}
use zwo_eaf_proxy.Base.Bytes.{Bytes, IsByte, ljust}
use zwo_eaf_proxy.Float.{Float}
use zwo_eaf_proxy.Focuser.{Focuser}
use zwo_eaf_proxy.Persona.Protocol as Host
use zwo_eaf_proxy.Persona.Protocol.{
  WriteState, read_register, write_state, clamp_u16, encode_temperature,
}
use zwo_eaf_proxy.Persona.Protocol.Parse.{InRange, parse-InRange}
use zwo_eaf_proxy.Persona.Device.{Device, apply, apply_parsed, handle_set_report, stored_settings}
use zwo_eaf_proxy.Firmware.Protocol.{k_settings_absent}
use zwo_eaf_proxy.Firmware.Protocol.Agree.{
  as_firmware, settings_field, parse_command-agrees, parse-taken,
}
use zwo_eaf_proxy.Firmware.Persona.{EafPersona, int32, apply_command, set_report_cb}

-- Positions that an `int32_t` holds
abbrev pub IsSmall : Result Host.MalformedReport Host.Command → Type 0
IsSmall (err e) = Unit {0}
IsSmall (ok (read_register g)) = Unit {0}
IsSmall (ok (write_state w)) = w.position < 2 ^ 31

settings-agrees :
    (n : Option ℕ) (old : ℕ)
    → ((s : ℕ) → n ≡ some s → s < 256)
    → (if eqb_ℤ (settings_field n) k_settings_absent
        then old
        else pos_part (settings_field n) % 256)
      ≡ stored_settings n old
unfolding stored_settings
settings-agrees none old h = refl
settings-agrees (some s) old h = ground (arith, h s refl)

pub int32_small : (n : ℕ) → n < 2 ^ 31 → int32 n ≡ pos n
int32_small n h = ground arith

module _ (f : Float) (o : Focuser) where
  -- The persona that stands where a device does: its temperature in hundredths, its version in bytes,
  -- and its serial filled up with zeros.
  abbrev pub mirror : ℤ → ℕ × ℕ × ℕ → Device f o → EafPersona o
  mirror centi v d = record {
    focuser = d.focuser;
    serial = ljust 12 d.serial;
    fallback_temperature_centi = centi;
    version = v;
    pending = d.pending;
    settings = d.settings;
  }

  module _ (centi : ℤ) (v : ℕ × ℕ × ℕ) where
    -- The persona behind a state write
    abbrev written : WriteState → Device f o → ℤ → ℕ → EafPersona o
    written w d position settings = record (mirror centi v d) {
      pending = 3;
      settings = settings;
      focuser =
          if w.go
          then (o.move_to position d.focuser).1
          else if w.sync
          then (o.set_position position d.focuser).1
          else (o.halt d.focuser).1;
    }

    apply-agrees :
        (p : Result Host.MalformedReport Host.Command) (d : Device f o)
        → ((k : Host.Command) → p ≡ ok k → InRange k)
        → IsSmall p
        → apply_command o (as_firmware p) (mirror centi v d)
          ≡ mirror centi v (apply_parsed f o p d).1
    unfolding apply_command apply
    apply-agrees (err e) d range small = refl
    apply-agrees (ok (read_register g)) d range small = refl
    apply-agrees (ok (write_state w)) d range small =
        ap (written w d (int32 w.position)) (settings-agrees w.settings d.settings (range _ refl).1)
        ∙ ap (λ z. written w d z (stored_settings w.settings d.settings))
            (int32_small w.position small)

    -- A SET_REPORT leaves the persona where it leaves the device.
    pub set-agrees :
        (report_id : ℕ) (buffer : Bytes) (d : Device f o)
        → All IsByte (report_id ∷ buffer)
        → IsSmall (Host.parse_command (report_id ∷ buffer))
        → set_report_cb o report_id buffer (mirror centi v d)
          ≡ mirror centi v (handle_set_report f o (report_id ∷ buffer) d).1
    unfolding set_report_cb handle_set_report
    set-agrees report_id buffer d h small =
        ap (λ c. apply_command o c (mirror centi v d))
          (parse_command-agrees (take 16 (report_id ∷ buffer))
            ∙ ap as_firmware (parse-taken (report_id ∷ buffer)))
        ∙ apply-agrees (Host.parse_command (report_id ∷ buffer)) d
            (λ k e. parse-InRange (report_id ∷ buffer) k h e) small
