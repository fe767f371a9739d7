-- ===== src/Runtime/RoundTrips.antt =====
-- The conversions of runtime/src/lib.rs and runtime/src/asset_location.rs forth and back.
use native.Mathlib.Nat.{div-mul-le_self, mul-div_right, div-add-mod', mod-lt, mod-eq_of_lt}
use blockchain_protocol_v.Common.{
  ℕ, ◌+◌, ◌-◌, ◌*◌, ◌/◌, ◌%◌, ◌≤◌, ◌<◌, ◌≡◌, ◌↔◌, some, Eq, u64_mod, u128_mod, min, arith,
}
use blockchain_protocol_v.Runtime.Conversions.{
  current, normalize, from_location, into_location, weight_per_gas, gas_to_weight, weight_to_gas,
  factor, to_votes, from_votes,
}

-- A location of the messages comes back from the asset location that it is turned into, which is the
-- current one exactly for `here`.
pub location_round_trip :
    {M : Type 0} ⦃e : Eq M⦄ (here l : M)
    → (into_location here (from_location here l) ≡ some l)
      × ((from_location here l ≡ current) ↔ (l ≡ here))
unfolding into_location from_location normalize
location_round_trip ⦃e = e⦄ here l = (
  ground (arith, e.beq_iff l here),
  (λ h. ground (arith, e.beq_iff l here, h), λ h. ground (arith, e.beq_iff l here, h)),
)

cap_div : (w gas : ℕ) → gas * w < u64_mod → 0 < w → min (gas * w) (u64_mod - 1) / w ≡ gas
cap_div w gas fits positive =
    let uncapped : min (gas * w) (u64_mod - 1) ≡ w * gas = grind arith in
    rw uncapped (mul-div_right gas positive)

cut_back :
    (f x : ℕ)
    → 0 < f
    → x < u128_mod
    → x / f < u64_mod
    → let back = (((x / f) % u64_mod) * f) % u128_mod in (back ≤ x) × (x < back + f)
cut_back f x positive fits votes_fit =
    let whole : (x / f) % u64_mod ≡ x / f = mod-eq_of_lt votes_fit in
    let below : x / f * f < u128_mod = omega (arith, div-mul-le_self x f) in
    let same : (x / f * f) % u128_mod ≡ x / f * f = mod-eq_of_lt below in
    rw (whole, same) (div-mul-le_self x f, omega (arith, div-add-mod' x f, mod-lt x positive))

-- Gas comes back from the weight that it is turned into, where that is not capped and a gas weighs
-- something.
pub gas_round_trip :
    (weight_per_second gas : ℕ)
    → gas * weight_per_gas weight_per_second < u64_mod
    → 0 < weight_per_gas weight_per_second
    → weight_to_gas weight_per_second (gas_to_weight weight_per_second gas) ≡ gas
unfolding gas_to_weight weight_to_gas
gas_round_trip weight_per_second gas fits positive =
    cap_div (weight_per_gas weight_per_second) gas fits positive

-- Votes lose less than a factor of a balance, where they fit a `u64`: what comes back is at most the
-- balance, and more than the balance less the factor.
pub votes_round_trip :
    (issuance x : ℕ)
    → x < u128_mod
    → x / factor issuance < u64_mod
    → let back = from_votes issuance (to_votes issuance x) in
      (back ≤ x) × (x < back + factor issuance)
unfolding factor to_votes from_votes
votes_round_trip issuance x fits votes_fit =
    cut_back (factor issuance) x (omega arith) fits votes_fit
