-- ===== src/Common/Words.antt =====
-- Arithmetic on fixed-width unsigned integers, as Rust's checked and saturating methods do it.
use Prim.Native.Nat.{ℕ, ◌+◌, ◌-◌, ◌*◌, ◌%◌, ◌^◌, ◌<◌, min}
use mathlib.Core.Path.{◌≡◌}
use native.Mathlib.Omega.{arith}
use mathlib.Core.Option.{Option, none, some}
use blockchain_protocol_v.Common.Tests.{ltb, leb, if◌then◌else◌}

-- The number of values of a `u128` and of a `u64`; the greatest `u32`.
abbrev pub u128_mod : ℕ
u128_mod = 2 ^ 128

abbrev pub u64_mod : ℕ
u64_mod = 2 ^ 64

abbrev pub u32_max : ℕ
u32_max = 2 ^ 32 - 1

-- The greatest `i128`.
abbrev pub i128_max : ℕ
i128_max = 2 ^ 127 - 1

-- `u128::checked_add`
abbrev pub checked_add : ℕ → ℕ → Option ℕ
checked_add a b = if ltb (a + b) u128_mod then some (a + b) else none

-- `checked_sub`, at any width
abbrev pub checked_sub : ℕ → ℕ → Option ℕ
checked_sub a b = if leb b a then some (a - b) else none

-- `saturating_add` and `saturating_mul` at the width of `m` values; `saturating_sub` is `-` on ℕ.
abbrev pub saturating_add : ℕ → ℕ → ℕ → ℕ
saturating_add m a b = min (a + b) (m - 1)

abbrev pub saturating_mul : ℕ → ℕ → ℕ → ℕ
saturating_mul m a b = min (a * b) (m - 1)

-- `+` at the width of `m` values, as a release build computes it.
abbrev pub wrapping_add : ℕ → ℕ → ℕ → ℕ
wrapping_add m a b = (a + b) % m

pub wrapping_add_small : (m a b : ℕ) → a + b < m → wrapping_add m a b ≡ a + b
wrapping_add_small m a b h = grind arith
