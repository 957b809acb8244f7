-- ===== src/Firmware/Main.antt =====
-- firmware/main/main.cpp: the serial of the configuration, and the loop of `app_main`.
pub mod Serial
pub mod Loop
pub mod Arrival
use zwo_eaf_proxy.Base.{
  ℕ, zero, suc, ◌+◌, ◌-◌, ◌*◌, ◌/◌, ◌%◌, ◌^◌, Bool, ◌&&◌, Option, none, some, List, [], ◌∷◌, ltb,
  leb, if◌then◌else◌,
}
use zwo_eaf_proxy.Base.Int.{ℤ, pos, pos_part, ltb_ℤ}
use zwo_eaf_proxy.Base.Bytes.{Bytes, ljust}
use zwo_eaf_proxy.Text.{Text}
use zwo_eaf_proxy.Firmware.Protocol.{k_body_size}
use zwo_eaf_proxy.Firmware.Persona.{int32}

-- The value of a digit; `none` is -1.
abbrev pub digit_of : ℕ → Option ℕ
digit_of c =
    if leb b'0' c && leb c b'9'
    then some (c - b'0')
    else if leb b'a' c && leb c b'f'
    then some (c - b'a' + 10)
    else if leb b'A' c && leb c b'F'
    then some (c - b'A' + 10)
    else none

-- The two rounds over the nibbles of a byte, `value << 4 | digit`, and the bytes that the loop goes on
-- to write; nothing if a digit is malformed
abbrev pub both_nibbles : Option ℕ → Option ℕ → Bytes → Bytes
both_nibbles none low rest = []
both_nibbles (some high) none rest = []
both_nibbles (some high) (some low) rest = ((high * 16 + low) % 256) ∷ rest

-- The loop of `LoadSerial`: the bytes that it writes, `count` at most. The text has no zero but that
-- behind its end, where the loop ends.
unfoldable pub load_bytes : ℕ → Text → Bytes
load_bytes zero hex = []
load_bytes (suc count) [] = []
load_bytes (suc count) (a ∷ []) = []
load_bytes (suc count) (a ∷ b ∷ hex) = both_nibbles (digit_of a) (digit_of b) (load_bytes count hex)

-- `serial`, behind `LoadSerial`
unfoldable pub load_serial : Text → Bytes
load_serial hex = ljust k_body_size (load_bytes 8 hex)

-- The elapsed time in milliseconds, cut off to an `int32_t`; the timer is in microseconds and does not
-- run backwards.
abbrev pub elapsed_ms : ℕ → ℕ → ℤ
elapsed_ms now_us last_us = int32 ((now_us - last_us) / 1000 % 2 ^ 32)

module _ {S : Type 0} (advance : ℕ → S → S) where
  abbrev pub spend : ℤ → ℕ → ℕ → S → ℕ × S
  spend elapsed now_us last_us focuser =
      if ltb_ℤ (pos 0) elapsed
      then (now_us, advance (pos_part elapsed) focuser)
      else (last_us, focuser)

  -- A round of the loop, from the last reading that was used and the focuser.
  unfoldable pub loop_round : ℕ → ℕ × S → ℕ × S
  loop_round now_us (last_us, focuser) = spend (elapsed_ms now_us last_us) now_us last_us focuser

  -- The rounds at some readings of the timer
  unfoldable pub loop_rounds : List ℕ → ℕ × S → ℕ × S
  loop_rounds [] s = s
  loop_rounds (now_us ∷ readings) s = loop_rounds readings (loop_round now_us s)
