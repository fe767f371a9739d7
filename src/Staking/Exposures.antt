-- ===== src/Staking/Exposures.antt =====
-- What the validators of an era expose, in frame/staking/src/pallet/impls.rs: the exposures that come
-- of an election, whole and clipped, and their removal.
use blockchain_protocol_v.Common.{
  ℕ, zero, suc, List, [], ◌∷◌, ◌++◌, nat_eq, ◌==◌, ltb, leb, length, if◌then◌else◌, u128_mod,
  saturating_add,
}
use blockchain_protocol_v.Common.Storage.{Map}
use blockchain_protocol_v.Staking.Types.{Exposure, IndividualExposure}

-- Each elected validator with its voters and their weights.
abbrev pub Supports : Type 0
Supports = List (ℕ × List (ℕ × ℕ))

abbrev pub Exposures : Type 0
Exposures = List (ℕ × Exposure)

-- The voters of a validator after one another.
abbrev pub add_voters : (ℕ → ℕ) → ℕ → List (ℕ × ℕ) → Exposure → Exposure
add_voters to_currency validator [] e = e
add_voters to_currency validator ((nominator, weight) ∷ voters) e =
    let stake = to_currency weight in
    let total = saturating_add u128_mod e.total stake in
    add_voters to_currency validator voters (
      if nominator == validator
      then record e { own = saturating_add u128_mod e.own stake; total = total }
      else record e {
        others = e.others ++ (record { who = nominator; value = stake } ∷ []);
        total = total;
      })

abbrev pub no_exposure : Exposure
no_exposure = record { total = 0; own = 0; others = [] }

-- `sort_by` on the values from the greatest down, which keeps the order of equal ones.
abbrev pub insert_by_value : IndividualExposure → List IndividualExposure → List IndividualExposure
insert_by_value x [] = x ∷ []
insert_by_value x (y ∷ ys) =
    let rest = insert_by_value x ys in if leb y.value x.value then x ∷ y ∷ ys else y ∷ rest

abbrev pub sort_by_value : List IndividualExposure → List IndividualExposure
sort_by_value [] = []
sort_by_value (x ∷ xs) = insert_by_value x (sort_by_value xs)

abbrev pub truncate : ℕ → List IndividualExposure → List IndividualExposure
truncate zero xs = []
truncate (suc n) [] = []
truncate (suc n) (x ∷ xs) = x ∷ truncate n xs

abbrev pub clip : ℕ → Exposure → Exposure
clip n e =
    if ltb n (length e.others) then record e { others = truncate n (sort_by_value e.others) } else e

-- `remove_prefix` of a map that is keyed by an era and an account.
abbrev pub remove_prefix : {V : Type 0} → ℕ → Map (ℕ × ℕ) V → Map (ℕ × ℕ) V
remove_prefix era [] = []
remove_prefix era (((e, k), v) ∷ m) =
    let rest = remove_prefix era m in if era == e then rest else ((e, k), v) ∷ rest

abbrev pub total_stake : ℕ → Exposures → ℕ
total_stake sum [] = sum
total_stake sum ((_, e) ∷ exposures) = total_stake (saturating_add u128_mod sum e.total) exposures

abbrev pub stash_of : ℕ × Exposure → ℕ
stash_of x = x.0
