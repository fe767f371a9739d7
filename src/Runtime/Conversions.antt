-- ===== src/Runtime/Conversions.antt =====
-- The conversions of runtime/src/lib.rs between gas and weight and between balances and votes, and
-- those of runtime/src/asset_location.rs.
use blockchain_protocol_v.Common.{
  ℕ, ◌-◌, ◌*◌, ◌/◌, ◌%◌, Option, some, Eq, ◌==◌, if◌then◌else◌, u64_mod, u128_mod, max, min,
  saturating_mul,
}

-- `AssetLocation` over the locations of the messages' format.
pub data AssetLocation (MultiLocation : Type 0) : Type 0 where
  current : AssetLocation MultiLocation
  para : MultiLocation → AssetLocation MultiLocation

module _ {MultiLocation : Type 0} ⦃e : Eq MultiLocation⦄ (here : MultiLocation) where
  unfoldable pub normalize : AssetLocation MultiLocation → AssetLocation MultiLocation
  normalize current = current
  normalize (para l) = if l == here then current else para l

  -- `From<MultiLocation>` and `Into<Option<MultiLocation>>`.
  unfoldable pub from_location : MultiLocation → AssetLocation MultiLocation
  from_location l = normalize (para l)

  unfoldable pub into_location : AssetLocation MultiLocation → Option MultiLocation
  into_location current = some here
  into_location (para l) = some l

-- `GlitchGasWeightMapping`, where `weight_per_second` is the frame's constant: both kinds of number
-- are `u64`, so that the conversions between them do not fail.
abbrev pub gas_per_second : ℕ
gas_per_second = 32000000

module _ (weight_per_second : ℕ) where
  abbrev pub weight_per_gas : ℕ
  weight_per_gas = weight_per_second / gas_per_second

  unfoldable pub gas_to_weight : ℕ → ℕ
  gas_to_weight gas = saturating_mul u64_mod gas weight_per_gas

  unfoldable pub weight_to_gas : ℕ → ℕ
  weight_to_gas weight = weight / weight_per_gas

-- `CurrencyToVoteHandler2` at a total issuance: `as u64` cuts off the higher bits.
unfoldable pub factor : ℕ → ℕ
factor issuance = max (issuance / (u64_mod - 1)) 1

unfoldable pub to_votes : ℕ → ℕ → ℕ
to_votes issuance x = (x / factor issuance) % u64_mod

unfoldable pub from_votes : ℕ → ℕ → ℕ
from_votes issuance x = (x * factor issuance) % u128_mod

-- `CurrencyToVoteHandler` from `u128` to `u64`.
unfoldable pub saturated_votes : ℕ → ℕ
saturated_votes x = min x (u64_mod - 1)
