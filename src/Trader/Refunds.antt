-- ===== src/Trader/Refunds.antt =====
-- What the trader of runtime/src/asset_trader.rs refunds of what was paid.
use native.Mathlib.Nat.{le-div_iff_mul-le, div-mul-le_self}
use blockchain_protocol_v.Common.{
  ℕ, ◌+◌, ◌-◌, ◌*◌, ◌/◌, ◌≤◌, ◌<◌, ◌≡◌, Option, some, saturating_mul, u64_mod, u128_mod, arith,
}
use blockchain_protocol_v.Trader.Weights.{
  MultiAsset, concrete, fungible, Config, new, ok, buy_weight, buy_at, record_purchase,
  refund_weight, drop,
}

-- The asset of an amount at a location.
abbrev pub asset : ℕ → ℕ → MultiAsset
asset id amount = record { id = concrete id; fun = fungible amount }

-- Facts of the prices.
product_le : (units weight : ℕ) → units * (weight + weight) ≡ units * weight + units * weight
product_le units weight = grind arith

div_double : (a d : ℕ) → 0 < d → a / d + a / d ≤ (a + a) / d
div_double a d pos =
    let twice : (a / d + a / d) * d ≡ a / d * d + a / d * d = grind arith in
    (le-div_iff_mul-le pos).1 (ground (arith, twice, div-mul-le_self a d))

div_mono : {a b : ℕ} (d : ℕ) → a ≤ b → 0 < d → a / d ≤ b / d
div_mono {a} d le pos = (le-div_iff_mul-le pos).1 (ground (arith, div-mul-le_self a d))

-- A trader's life: a weight is bought, some weight is refunded, and the rest is dropped. The refund
-- and the revenue.
unfoldable pub settled :
    {Assets AssetId : Type 0}
    → Config Assets AssetId
    → ℕ
    → ℕ
    → Assets
    → Option MultiAsset × Option MultiAsset
settled T weight back payment =
    let done = refund_weight T back (buy_weight T weight payment new).1 in (done.0, drop done.1)

-- An asset that is priced, a payment in it, and a weight it pays for.
module _ {Assets AssetId : Type 0} (T : Config Assets AssetId) {payment unused : Assets}
    {asset_id : AssetId} {id n units : ℕ} (weight : ℕ)
    (first : T.first_fungible payment ≡ some (asset id n)) (convert : T.convert id ≡ some asset_id)
    (price : T.get_units_per_second asset_id ≡ some units)
    (covered : T.checked_sub payment (asset id (units * weight / T.weight_per_second))
      ≡ some unused)
    (second : 0 < T.weight_per_second) (paid : 0 < units * weight / T.weight_per_second)
    (fits : weight + weight < u64_mod) (fits_product : units * (weight + weight) < u128_mod) where
  exact_product : saturating_mul u128_mod units weight ≡ units * weight
  exact_product = ground (arith, product_le units weight)

  pub first_purchase : buy_weight T weight payment new ≡ (
    ok unused,
    record {
      weight = weight + weight;
      payment = some (id, units * weight / T.weight_per_second, units);
    },
  )
  unfolding buy_weight buy_at new record_purchase
  first_purchase =
      rw (buy_weight, first, buy_at, convert, price, exact_product, covered)
        (ground (arith, product_le units weight))

  -- A new trader sells a weight for a payment whose first fungible asset converts and has a price,
  -- which the payment covers, which is not 0, and which stays below the bounds of the numbers for
  -- twice the weight. Then a refund of at most the weight bought, and the drop, account for the
  -- charge: the refund is the price of the weight given back, and the revenue the rest of it.
  pub refund_conserves :
      (back : ℕ)
      → back ≤ weight
      → (settled T weight back payment ≡ (
        some (asset id (units * back / T.weight_per_second)),
        some (asset id (units * weight / T.weight_per_second - units * back / T.weight_per_second)),
      ))
        × (units * back / T.weight_per_second ≤ units * weight / T.weight_per_second)
  unfolding settled refund_weight drop
  refund_conserves back le =
      let small : units * back ≤ units * weight = grind arith in
      (
        rw first_purchase (ground (arith, product_le units weight, small)),
        div_mono T.weight_per_second small second,
      )

  -- After the same purchase a refund of twice the weight bought is at least twice what was charged
  -- for it: the purchase counts the weight twice.
  pub refund_exceeds_charge :
      (r : ℕ) × ((settled T weight (weight + weight) payment).0 ≡ some (asset id r))
      × (units * weight / T.weight_per_second + units * weight / T.weight_per_second ≤ r)
  unfolding settled refund_weight drop
  refund_exceeds_charge = (
    units * (weight + weight) / T.weight_per_second,
    rw first_purchase (ground arith),
    rw (product_le units weight) (div_double (units * weight) T.weight_per_second second),
  )
