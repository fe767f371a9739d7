-- ===== src/Staking/Points.antt =====
-- The reward points of an era in frame/staking/src/pallet/impls.rs: who gets them, and that what
-- validators have adds up to the era's total.
use blockchain_protocol_v.Common.{
  ℕ, ◌+◌, ◌≡◌, ◌<◌, refl, Option, none, some, List, [], ◌∷◌, nat_eq, arith, u32_max, wrapping_add,
  wrapping_add_small,
}
use blockchain_protocol_v.Common.Storage.{
  get, insert, total, total-insert, get-le-total, lookup-insert_self,
}
use blockchain_protocol_v.Staking.Eras.{ActiveEraInfo}
use blockchain_protocol_v.Staking.Planning.{Chain}
use blockchain_protocol_v.Staking.Types.{EraRewardPoints}

abbrev pub no_points : EraRewardPoints
no_points = record { total = 0; individual = [] }

-- The points are `u32`.
abbrev pub add_points : List (ℕ × ℕ) → EraRewardPoints → EraRewardPoints
add_points [] r = r
add_points ((validator, points) ∷ rest) r = add_points rest (record {
  individual =
      insert validator (wrapping_add (u32_max + 1) (get 0 validator r.individual) points)
        r.individual;
  total = wrapping_add (u32_max + 1) r.total points;
})

module _ {Accounts Voters : Type 0} where
  unfoldable pub reward_by_ids : List (ℕ × ℕ) → Chain Accounts Voters → Chain Accounts Voters
  reward_by_ids validators_points s = elim s.active_era [
    | none ↦ s
    | some info ↦ record s {
      staking = record s.staking {
        eras_reward_points =
            insert info.index
              (add_points validators_points (get no_points info.index s.staking.eras_reward_points))
              s.staking.eras_reward_points;
      };
    }
  ]

  unfoldable pub note_author : ℕ → Chain Accounts Voters → Chain Accounts Voters
  note_author author s = reward_by_ids ((author, 20) ∷ []) s

  -- The block's author comes from the authorship pallet.
  unfoldable pub note_uncle : Option ℕ → ℕ → Chain Accounts Voters → Chain Accounts Voters
  note_uncle none uncle_author s = s
  note_uncle (some block_author) uncle_author s =
      reward_by_ids ((block_author, 2) ∷ (uncle_author, 1) ∷ []) s

abbrev pub given : List (ℕ × ℕ) → ℕ
given [] = 0
given ((_, points) ∷ rest) = points + given rest

abbrev pub held : EraRewardPoints → ℕ
held r = total (λ points. points) r.individual

add_points-held :
    (points : List (ℕ × ℕ)) (r : EraRewardPoints)
    → r.total ≡ held r
    → r.total + given points < u32_max + 1
    → ((add_points points r).total ≡ held (add_points points r))
      × ((add_points points r).total ≡ r.total + given points)
add_points-held [] r balanced fits = (balanced, omega arith)
add_points-held ((validator, points) ∷ rest) r balanced fits =
    let m = r.individual in
    let id = λ (n : ℕ). n in
    let within = get-le-total id 0 validator m refl in
    let one : wrapping_add (u32_max + 1) (get 0 validator m) points ≡ get 0 validator m + points =
      wrapping_add_small (u32_max + 1) (get 0 validator m) points
        (omega (arith, fits, within, balanced)) in
    let all : wrapping_add (u32_max + 1) r.total points ≡ r.total + points =
      wrapping_add_small (u32_max + 1) r.total points (omega (arith, fits)) in
    let written = wrapping_add (u32_max + 1) (get 0 validator m) points in
    let moved = total-insert id 0 validator written m refl in
    let next : EraRewardPoints = record {
      individual = insert validator written m;
      total = wrapping_add (u32_max + 1) r.total points;
    } in
    let (h, h') =
      add_points-held rest next (omega (arith, one, all, moved, balanced))
        (omega (arith, all, fits)) in
    (h, omega (arith, h', all))

-- While the points of the active era fit a `u32`, rewarding validators keeps the era's total the sum
-- of what the validators have, which payouts divide by, and adds to it what was given.
pub reward_by_ids-held :
    {Accounts Voters : Type 0} (points : List (ℕ × ℕ)) (s : Chain Accounts Voters)
    (info : ActiveEraInfo)
    → s.active_era ≡ some info
    → let r = get no_points info.index s.staking.eras_reward_points in
      r.total ≡ held r
      → r.total + given points < u32_max + 1
      → let r' = get no_points info.index (reward_by_ids points s).staking.eras_reward_points in
        (r'.total ≡ held r') × (r'.total ≡ r.total + given points)
unfolding reward_by_ids
reward_by_ids-held points s info active balanced fits =
    let m = s.staking.eras_reward_points in
    let r' = add_points points (get no_points info.index m) in
    rw (active, reward_by_ids, lookup-insert_self info.index r' m)
      (add_points-held points (get no_points info.index m) balanced fits)
