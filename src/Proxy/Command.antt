-- ===== src/Proxy/Command.antt =====
-- host/src/zwoproxy/cli.py, the `persona` command from its options on: argparse hands `--serial` and
-- `--firmware-version` to their parsers, and the numbers to `int` and `float`.
use zwo_eaf_proxy.Base.{
  ℕ, ◌^◌, ◌≤◌, ◌<◌, ◌≡◌, refl, sym, false, Option, none, some, List, length, All, arith,
}
use zwo_eaf_proxy.Base.Int.{ℤ, pos}
use zwo_eaf_proxy.Base.Result.{Result, ok, ◌>>=◌, returned_first, ok_value, Yields}
use zwo_eaf_proxy.Base.Bytes.{Bytes, IsByte}
use zwo_eaf_proxy.Float.{Float, IsFloat}
use zwo_eaf_proxy.Text.{Text}
use zwo_eaf_proxy.Simulated.{simulated}
use zwo_eaf_proxy.Simulated.Advance.{IsMonotonic}
use zwo_eaf_proxy.Cli.{ArgumentError, serial_arg, version_arg}
use zwo_eaf_proxy.Cli.Arguments.{serial_arg-bytes, version_arg-IsByteInt}
use zwo_eaf_proxy.Persona.Eaf.{Version, firmware_version, placeholder_serial}
use zwo_eaf_proxy.Persona.Protocol.Encode.{IsByteInt}
use zwo_eaf_proxy.Persona.Device.{Request, serve}
use zwo_eaf_proxy.Persona.Device.Safety.{AllAnswered, IsWire}
use zwo_eaf_proxy.Proxy.{Args, or_default, persona, IsUsable, persona_answers}

-- An option with a parser, and the default `None`.
abbrev pub parse_option {ℓ} :
    {A : Type ℓ} → (Text → Result ArgumentError A) → Option Text → Result ArgumentError (Option A)
parse_option parser none = ok none
parse_option parser (some text) = parser text >>= (λ a. ok (some a))

-- The arguments of `persona`, from its options.
unfoldable pub command_args :
    (f : Float) → Option Text → Option Text → ℤ → f.F → f.F → Result ArgumentError (Args f)
command_args f serial version position rate temperature = do
  serial_value ← parse_option serial_arg serial
  version_value ← parse_option version_arg version
  ok (record {
    position = position;
    rate = rate;
    temperature = temperature;
    firmware_version_arg = version_value;
    serial_arg = serial_value;
  })

parsed_serial :
    (o : Option Text) (r : Option Bytes)
    → parse_option serial_arg o ≡ ok r
    → All IsByte (or_default r placeholder_serial) × (length (or_default r placeholder_serial) ≤ 12)
parsed_serial none r e = rw (sym (ok_value none r e)) (omega arith)
parsed_serial (some text) r e =
    let (b, (last, first)) = returned_first (λ a. ok (some a)) (serial_arg text) r e in
    let (size, bytes) = serial_arg-bytes text b first in
    rw (sym (ok_value (some b) r last)) (bytes, omega arith)

abbrev IsByteVersion : Version → Type 0
IsByteVersion v = IsByteInt v.0 × IsByteInt v.1 × IsByteInt v.2

parsed_version :
    (o : Option Text) (r : Option Version)
    → parse_option version_arg o ≡ ok r
    → IsByteVersion (or_default r firmware_version)
parsed_version none r e = rw (sym (ok_value none r e)) (omega arith)
parsed_version (some text) r e =
    let (v, (last, first)) = returned_first (λ a. ok (some a)) (version_arg text) r e in
    rw (sym (ok_value (some v) r last)) (version_arg-IsByteInt text v first)

module _ (f : Float) (clock : ℕ → f.F) where
  command_args-IsUsable :
      (serial version : Option Text) (start : ℕ) (rate temperature : f.F) (a : Args f)
      → command_args f serial version (pos start) rate temperature ≡ ok a
      → start < 2 ^ 32
      → f.le rate (f.of_int (pos 0)) ≡ false
      → IsUsable f clock a
  unfolding command_args
  command_args-IsUsable serial version start rate temperature a e fits positive =
      let (s, (rest, first)) = returned_first _ (parse_option serial_arg serial) a e in
      let (v, (last, second)) = returned_first _ (parse_option version_arg version) a rest in
      let (bytes, size) = parsed_serial serial s first in
      let (major, minor, patch) = parsed_version version v second in
      rw (sym (ok_value _ a last)) (record {
        start = start;
        start_is = refl;
        start_fits = fits;
        rate_positive = positive;
        serial_bytes = bytes;
        serial_size = size;
        major = major;
        minor = minor;
        patch = patch;
      })

  -- Whatever serial and version the command line accepts, or has by default, with a start of four
  -- bytes and a positive rate, over a lawful float arithmetic and a clock that never runs backwards:
  -- the device that `persona` emulates answers every request of a session whose reports are bytes,
  -- by an acknowledgement or by min(n, 16) bytes of a report of which n were asked for; no order of
  -- requests makes a handler raise.
  pub command_answers :
      (serial version : Option Text) (start : ℕ) (rate temperature : f.F) (a : Args f)
      → (qs : List Request) → IsFloat f
      → IsMonotonic f clock
      → command_args f serial version (pos start) rate temperature ≡ ok a
      → start < 2 ^ 32
      → f.le rate (f.of_int (pos 0)) ≡ false
      → All IsWire qs
      → Yields (λ d. AllAnswered qs (serve f (simulated f clock) qs d).0) (persona f clock a)
  command_answers serial version start rate temperature a qs laws mono e fits positive w =
      persona_answers f clock laws mono a qs
        (command_args-IsUsable serial version start rate temperature a e fits positive) w
