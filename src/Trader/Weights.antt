-- ===== src/Trader/Weights.antt =====
-- `FungibleAssetTrader` and `XcmPayToAccount` of runtime/src/asset_trader.rs.
use blockchain_protocol_v.Common.{
  ℕ, ◌-◌, ◌*◌, ◌/◌, ◌%◌, Option, none, some, min, saturating_add, saturating_mul, u64_mod, u128_mod,
  nat_beq, if◌then◌else◌,
}

pub data XcmError : Type 0 where
  asset_not_found too_expensive : XcmError

pub data XcmResult (A : Type 0) : Type 0 where
  ok : A → XcmResult A
  err : XcmError → XcmResult A

-- `AssetId` and `Fungibility` of an asset in a message. Locations are only compared.
pub data XcmAssetId : Type 0 where
  concrete : ℕ → XcmAssetId
  abstracted : ℕ → XcmAssetId

pub data Fungibility : Type 0 where
  fungible : ℕ → Fungibility
  non_fungible : ℕ → Fungibility

pub record MultiAsset : Type 0 where
  pub id : XcmAssetId
  pub fun : Fungibility

-- What the trader is given: the assets of a message with their first fungible and the taking off of
-- an asset, the conversion of a location, the price of an asset, and the weight of a second.
pub record Config (Assets AssetId : Type 0) : Type 0 where
  pub first_fungible : Assets → Option MultiAsset
  pub checked_sub : Assets → MultiAsset → Option Assets
  pub convert : ℕ → Option AssetId
  pub get_units_per_second : AssetId → Option ℕ
  pub weight_per_second : ℕ

-- The weight bought, and the location, the amount and the price of the payment.
pub record Trader : Type 0 where
  pub weight : ℕ
  pub payment : Option (ℕ × ℕ × ℕ)

unfoldable pub new : Trader
new = record { weight = 0; payment = none }

module _ {Assets AssetId : Type 0} (T : Config Assets AssetId) where
  -- The payment that is remembered after `amount` more was paid, or that the price has changed.
  abbrev pub add_payment : Option (ℕ × ℕ × ℕ) → ℕ → ℕ → ℕ → XcmResult (Option (ℕ × ℕ × ℕ))
  add_payment none id amount units = ok (some (id, amount, units))
  add_payment (some (prev_loc, prev_amount, prev_units)) id amount units =
      if nat_beq prev_loc id
      then (if nat_beq units prev_units
          then ok (some (id, saturating_add u128_mod prev_amount amount, units))
          else err too_expensive)
      else ok none

  -- `buy_weight` once the payment covers the fee.
  unfoldable pub record_purchase : ℕ → ℕ → ℕ → ℕ → Assets → Trader → XcmResult Assets × Trader
  record_purchase weight id amount units unused s =
      let once = saturating_add u64_mod s.weight weight in
      elim (add_payment s.payment id amount units) [
        | err x ↦ (err x, record s { weight = once })
        | ok none ↦ (ok unused, record s { weight = once })
        | ok (some info) ↦ (
          ok unused,
          record s { weight = saturating_add u64_mod once weight; payment = some info },
        )
      ]

  -- `buy_weight` for a fungible asset at a location.
  unfoldable pub buy_at : ℕ → ℕ → Assets → Trader → XcmResult Assets × Trader
  buy_at weight id payment s = elim (T.convert id) [
    | none ↦ (err asset_not_found, s)
    | some asset_id ↦ elim (T.get_units_per_second asset_id) [
      | none ↦ (err too_expensive, s)
      | some units ↦
          let amount = saturating_mul u128_mod units weight / T.weight_per_second in
          if nat_beq amount 0
          then (ok payment, s)
          else elim (T.checked_sub payment (record { id = concrete id; fun = fungible amount })) [
            | none ↦ (err too_expensive, s)
            | some unused ↦ record_purchase weight id amount units unused s
          ]
    ]
  ]

  abbrev pub buy_first : ℕ → MultiAsset → Assets → Trader → XcmResult Assets × Trader
  buy_first weight asset payment s = elim asset.id [
    | concrete id ↦ elim asset.fun [
      | fungible n ↦ buy_at weight id payment s
      | non_fungible n ↦ (err too_expensive, s)
    ]
    | abstracted name ↦ (err too_expensive, s)
  ]

  unfoldable pub buy_weight : ℕ → Assets → Trader → XcmResult Assets × Trader
  buy_weight weight payment s = elim (T.first_fungible payment) [
    | none ↦ (err too_expensive, s)
    | some asset ↦ buy_first weight asset payment s
  ]

  -- The product is a plain one, and wraps.
  unfoldable pub refund_weight : ℕ → Trader → Option MultiAsset × Trader
  refund_weight weight s = elim s.payment [
    | none ↦ (none, s)
    | some (id, prev_amount, units) ↦
        let refunded = min weight s.weight in
        let amount = units * refunded % u128_mod / T.weight_per_second in
        (
          some (record { id = concrete id; fun = fungible amount }),
          record { weight = s.weight - refunded; payment = some (id, prev_amount - amount, units) },
        )
  ]

-- `drop`: what is taken as revenue.
unfoldable pub drop : Trader → Option MultiAsset
drop s = elim s.payment [
  | none ↦ none
  | some (id, amount, units) ↦ some (record { id = concrete id; fun = fungible amount })
]

-- `XcmPayToAccount::take_revenue`: what matches as an asset of the chain, and is not nothing, is
-- minted to the beneficiary; a failure to mint is only asserted against in debug builds.
unfoldable pub take_revenue :
    {Ledger : Type 0}
    → (MultiAsset → Option (ℕ × ℕ))
    → (ℕ → ℕ → ℕ → Ledger → Option Ledger)
    → ℕ
    → MultiAsset
    → Ledger
    → Ledger
take_revenue matches_fungibles mint_into beneficial revenue l = elim (matches_fungibles revenue) [
  | none ↦ l
  | some (asset_id, amount) ↦
      if nat_beq amount 0
      then l
      else elim (mint_into asset_id beneficial amount l) [ none ↦ l | some l' ↦ l' ]
]
