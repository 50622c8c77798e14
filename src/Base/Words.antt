-- ===== src/Base/Words.antt =====
-- Little-endian words: `to_le_bytes` and `from_le_bytes`. A byte is a number below 256.
use Prim.Native.Nat.{ℕ, zero, suc, ◌+◌, ◌*◌, ◌/◌, ◌%◌, ◌^◌, ◌<◌}
use mathlib.Core.Path.{◌≡◌, refl, ap}
use mathlib.Core.List.{List, [], ◌∷◌}
use native.Mathlib.Omega.{arith}
use vitruvius.Base.Lists.{length}

abbrev pub Bytes : Type 0
Bytes = List ℕ

-- Names and paths are read as the bytes of their UTF-8 text.
abbrev pub Text : Type 0
Text = List ℕ

abbrev pub IsByte : ℕ → Type 0
IsByte b = b < 256

-- The lowest `n` bytes of a number, the lowest first.
unfoldable pub le_bytes : ℕ → ℕ → Bytes
le_bytes zero v = []
le_bytes (suc n) v = v % 256 ∷ le_bytes n (v / 256)

unfoldable pub from_le_bytes : Bytes → ℕ
from_le_bytes [] = 0
from_le_bytes (b ∷ bs) = b + 256 * from_le_bytes bs

abbrev pub u32_bytes : ℕ → Bytes
u32_bytes = le_bytes 4

abbrev pub u64_bytes : ℕ → Bytes
u64_bytes = le_bytes 8

-- `x as u32`
abbrev pub as_u32 : ℕ → ℕ
as_u32 x = x % 2 ^ 32

pub length-le_bytes : (n v : ℕ) → length (le_bytes n v) ≡ n
unfolding le_bytes
length-le_bytes zero v = refl
length-le_bytes (suc n) v = ap suc (length-le_bytes n (v / 256))

pub from_le_bytes-u32 : (v : ℕ) → v < 2 ^ 32 → from_le_bytes (u32_bytes v) ≡ v
unfolding le_bytes from_le_bytes
from_le_bytes-u32 v h = omega arith

pub from_le_bytes-u64 : (v : ℕ) → v < 2 ^ 64 → from_le_bytes (u64_bytes v) ≡ v
unfolding le_bytes from_le_bytes
from_le_bytes-u64 v h = omega arith
