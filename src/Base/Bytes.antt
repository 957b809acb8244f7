-- ===== src/Base/Bytes.antt =====
-- Python's `bytes`: lists of numbers below 256, and the big-endian and little-endian codecs.
use Prim.Native.Nat.{ℕ, zero, suc, ◌+◌, ◌-◌, ◌*◌, ◌/◌, ◌%◌, ◌^◌, ◌<◌}
use mathlib.Core.Path.{◌≡◌}
use mathlib.Core.List.{List, [], ◌∷◌, ◌++◌}
use mathlib.Core.Bool.{Bool, true, false, ◌&&◌}
use native.Mathlib.Omega.{arith}
use zwo_eaf_proxy.Base.Compare.{◌==◌}
use zwo_eaf_proxy.Base.Lists.{length, replicate, All, All-append}

abbrev pub Bytes : Type 0
Bytes = List ℕ

abbrev pub IsByte : ℕ → Type 0
IsByte b = b < 256

-- `a == b` on two byte strings.
abbrev pub bytes_eq : Bytes → Bytes → Bool
bytes_eq [] [] = true
bytes_eq [] (y ∷ ys) = false
bytes_eq (x ∷ xs) [] = false
bytes_eq (x ∷ xs) (y ∷ ys) = x == y && bytes_eq xs ys

-- `int.from_bytes(b, "big")`, with what was read before it.
abbrev pub from_bytes_after : ℕ → Bytes → ℕ
from_bytes_after acc [] = acc
from_bytes_after acc (b ∷ bs) = from_bytes_after (acc * 256 + b) bs

abbrev pub from_bytes : Bytes → ℕ
from_bytes bs = from_bytes_after 0 bs

-- `n.to_bytes(k, "big")` for n below 256 ^ k.
abbrev pub to_bytes : ℕ → ℕ → Bytes
to_bytes zero n = []
to_bytes (suc k) n = to_bytes k (n / 256) ++ (n % 256 ∷ [])

-- The same, least significant byte first.
abbrev pub to_bytes_le : ℕ → ℕ → Bytes
to_bytes_le zero n = []
to_bytes_le (suc k) n = n % 256 ∷ to_bytes_le k (n / 256)

abbrev pub from_bytes_le : Bytes → ℕ
from_bytes_le [] = 0
from_bytes_le (b ∷ bs) = b + 256 * from_bytes_le bs

-- `b.ljust(n, b"\x00")`
abbrev pub ljust : ℕ → Bytes → Bytes
ljust n b = b ++ replicate (n - length b) 0

pub All-replicate : (n : ℕ) → All IsByte (replicate n 0)
All-replicate zero = tt
All-replicate (suc n) = (omega arith, All-replicate n)

pub All-ljust : (n : ℕ) (b : Bytes) → All IsByte b → All IsByte (ljust n b)
All-ljust n b h = All-append IsByte b _ h (All-replicate _)

pub from_bytes-to_bytes_4 : (n : ℕ) → n < 2 ^ 32 → from_bytes (to_bytes 4 n) ≡ n
from_bytes-to_bytes_4 n h = omega arith

pub from_bytes-to_bytes_2 : (n : ℕ) → n < 2 ^ 16 → from_bytes (to_bytes 2 n) ≡ n
from_bytes-to_bytes_2 n h = omega arith

pub from_bytes_le-to_bytes_le_4 : (n : ℕ) → n < 2 ^ 32 → from_bytes_le (to_bytes_le 4 n) ≡ n
from_bytes_le-to_bytes_le_4 n h = omega arith
