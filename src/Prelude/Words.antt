-- ===== src/Prelude/Words.antt =====
-- Machine words as native numbers: a `u32` is a number below 2 ^ 32, its wrap-around is written out.
use Prim.Native.Nat.{ℕ, ◌+◌, ◌-◌, ◌*◌, ◌/◌, ◌%◌, ◌^◌, ◌<◌, min}
use mathlib.Core.Path.{◌≡◌}
use mathlib.Core.List.{[], ◌∷◌}
use native.Mathlib.Omega.{arith}
use ferro_protocols.Prelude.Lists.{Bytes}

abbrev pub u32_mod : ℕ
u32_mod = 2 ^ 32

abbrev pub u32_max : ℕ
u32_max = 2 ^ 32 - 1

abbrev pub u64_max : ℕ
u64_max = 2 ^ 64 - 1

-- `wrapping_add` and `wrapping_sub` of `u32`.
abbrev pub wrapping_add : ℕ → ℕ → ℕ
wrapping_add a b = (a + b) % u32_mod

abbrev pub wrapping_sub : ℕ → ℕ → ℕ
wrapping_sub a b = (a + u32_mod - b) % u32_mod

-- `saturating_add` of a 64-bit `usize` or `u64`.
abbrev pub saturating_add : ℕ → ℕ → ℕ
saturating_add a b = min (a + b) u64_max

-- `u32::to_be_bytes`
unfoldable pub to_be_bytes : ℕ → Bytes
to_be_bytes n = (n / 2 ^ 24 % 256) ∷ (n / 2 ^ 16 % 256) ∷ (n / 2 ^ 8 % 256) ∷ (n % 256) ∷ []

-- `u32::from_be_bytes`, of four bytes
unfoldable pub from_be_bytes : Bytes → ℕ
from_be_bytes (a ∷ b ∷ c ∷ d ∷ _) = ((a * 256 + b) * 256 + c) * 256 + d
from_be_bytes _ = 0

-- `u32::to_le_bytes`
unfoldable pub to_le_bytes : ℕ → Bytes
to_le_bytes n = (n % 256) ∷ (n / 2 ^ 8 % 256) ∷ (n / 2 ^ 16 % 256) ∷ (n / 2 ^ 24 % 256) ∷ []

-- `u32::from_le_bytes`, of four bytes
unfoldable pub from_le_bytes : Bytes → ℕ
from_le_bytes (a ∷ b ∷ c ∷ d ∷ _) = ((d * 256 + c) * 256 + b) * 256 + a
from_le_bytes _ = 0

pub from_be_bytes-to_be_bytes : (n : ℕ) → n < u32_mod → from_be_bytes (to_be_bytes n) ≡ n
unfolding from_be_bytes to_be_bytes
from_be_bytes-to_be_bytes n h = omega arith

pub from_le_bytes-to_le_bytes : (n : ℕ) → n < u32_mod → from_le_bytes (to_le_bytes n) ≡ n
unfolding from_le_bytes to_le_bytes
from_le_bytes-to_le_bytes n h = omega arith
