-- ===== src/Incentives/Rewards.antt =====
-- The reward rates of modules/incentives/src/lib.rs, from the genesis configuration, and the reward
-- that a pool is granted for a span of blocks.
use blockchain_protocol_v.Common.{
  ℕ, ◌+◌, ◌-◌, ◌*◌, ◌≤◌, ◌<◌, ◌≡◌, refl, Bool, true, false, not, ◌||◌, Option, none, some, List, [],
  ◌∷◌, nat_eq, ◌==◌, nat_beq, leb, if◌then◌else◌, saturating_mul, u128_mod, arith,
}
use blockchain_protocol_v.Common.Storage.{Map, get, insert, lookup, contains_key, lookup-insert}
use blockchain_protocol_v.Incentives.Pairs.{
  CurrencyId, PairKey, PoolId, dex, try_from, pool_eq, pool_beq,
}

abbrev pub Rates : Type 0
Rates = Map PoolId ℕ

-- `build` of the genesis configuration; `none` where it panics.
unfoldable pub build : List (CurrencyId × CurrencyId × ℕ) → Rates → Option Rates
build [] rates = some rates
build ((left, right, reward_per_block) ∷ rest) rates = elim (try_from left right) [
  | none ↦ none
  | some key ↦ elim (nat_beq reward_per_block 0) [
    | true ↦ none
    | false ↦ build rest (insert (dex key) reward_per_block rates)
  ]
]

unfoldable pub caculate_reward : Rates → PoolId → ℕ → ℕ → ℕ → ℕ
caculate_reward rates pool_id total_share last_update_block now =
    let reward_ratio = get 0 pool_id rates in
    if total_share == 0
    then 0
    else if not (contains_key pool_id rates) || leb now last_update_block
    then 0
    else if reward_ratio == 0
    then 0
    else saturating_mul u128_mod reward_ratio (now - last_update_block)

-- What a configuration says of a pair: its last entry, in either order of the currencies.
abbrev pub same_pair : PairKey → Option PairKey → Bool
same_pair k none = false
same_pair k (some j) = pool_beq (dex k) (dex j)

abbrev pub or_else : Option ℕ → Option ℕ → Option ℕ
or_else none o = o
or_else (some a) o = some a

unfoldable pub configured : PairKey → List (CurrencyId × CurrencyId × ℕ) → Option ℕ
configured k [] = none
configured k ((left, right, rate) ∷ rest) =
    or_else (configured k rest) (if same_pair k (try_from left right) then some rate else none)

build-configured_from :
    (k : PairKey) (config : List (CurrencyId × CurrencyId × ℕ)) (start : Rates) {rates : Rates}
    → build config start ≡ some rates
    → lookup (dex k) rates ≡ or_else (configured k config) (lookup (dex k) start)
unfolding build configured
build-configured_from k [] start h = ground arith
build-configured_from k ((left, right, rate) ∷ rest) start {rates} h =
    go (try_from left right) refl (λ j. build-configured_from k rest (insert (dex j) rate start))
  where
    go :
        (o : Option PairKey)
        → try_from left right ≡ o
        → ((j : PairKey)
            → build rest (insert (dex j) rate start) ≡ some rates
            → lookup (dex k) rates
              ≡ or_else (configured k rest) (lookup (dex k) (insert (dex j) rate start)))
        → lookup (dex k) rates
          ≡ or_else (configured k ((left, right, rate) ∷ rest)) (lookup (dex k) start)
    go none e ih = ground arith
    go (some j) e ih = ground (arith, ih j, lookup-insert (dex k) (dex j) rate start)

-- The genesis rates are those of the configuration: a pair that it does not name has no entry, and
-- otherwise the last entry for the pair, in either order, counts.
pub build-configured :
    (k : PairKey) (config : List (CurrencyId × CurrencyId × ℕ)) {rates : Rates}
    → build config [] ≡ some rates
    → lookup (dex k) rates ≡ configured k config
build-configured k config h = ground (arith, build-configured_from k config [] h)

capped_sum :
    (r x y : ℕ)
    → r * (x + y) < u128_mod
    → saturating_mul u128_mod r (x + y) ≡ saturating_mul u128_mod r x + saturating_mul u128_mod r y
capped_sum r x y h = omega arith

-- The reward for a span of blocks is that of its two parts at any block between, while the rate
-- times the span fits a balance.
pub caculate_reward_splits :
    (rates : Rates) (pool : PoolId) (total_share from mid to : ℕ)
    → from ≤ mid
    → mid ≤ to
    → get 0 pool rates * (to - from) < u128_mod
    → caculate_reward rates pool total_share from to
      ≡ caculate_reward rates pool total_share from mid
        + caculate_reward rates pool total_share mid to
unfolding caculate_reward
caculate_reward_splits rates pool total_share from mid to le ge fits =
    let r = get 0 pool rates in
    let span : to - from ≡ (mid - from) + (to - mid) = omega arith in
    ground (arith, capped_sum r (mid - from) (to - mid) (rw span at fits), span)
