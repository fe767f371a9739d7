-- ===== src/Trader/Tests.antt =====
-- The theorems of runtime/src/asset_trader.rs at a small market.
use blockchain_protocol_v.Trader.Refunds.{asset, settled, refund_exceeds_charge}
use blockchain_protocol_v.Common.{
  ℕ, ◌≡◌, ◌≤◌, ◌+◌, ◌-◌, refl, some, arith, leb, if◌then◌else◌, Option, none,
}
use blockchain_protocol_v.Trader.Weights.{Config, MultiAsset, fungible, non_fungible}

abbrev fee_asset : ℕ → MultiAsset
fee_asset = asset 1

-- The assets of a message are an amount at location 1.
abbrev less : ℕ → MultiAsset → Option ℕ
less held fee = elim fee.fun [
  | fungible n ↦ if leb n held then some (held - n) else none
  | non_fungible n ↦ none
]

abbrev market : Config ℕ ℕ
market = record {
  first_fungible = λ held. some (fee_asset held);
  checked_sub = less;
  convert = λ id. some id;
  get_units_per_second = λ id. some 2000;
  weight_per_second = 1000;
}

refund_exceeds_charge_example :
    (r : ℕ) × ((settled market 50 100 500).0 ≡ some (fee_asset r)) × (100 + 100 ≤ r)
refund_exceeds_charge_example =
    refund_exceeds_charge market {unused = 400} {units = 2000} 50 refl refl refl refl (omega arith)
      (omega arith) (omega arith) (omega arith)
