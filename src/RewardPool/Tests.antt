-- ===== src/RewardPool/Tests.antt =====
-- A small chain for modules/reward-pool/src/lib.rs, and the theorems at it.
use blockchain_protocol_v.Incentives.Accrual.{with_incentives}
use blockchain_protocol_v.Incentives.Pairs.{PoolId, clv, ceth, dex, discriminant, pool_eq}
use blockchain_protocol_v.Incentives.Rewards.{caculate_reward}
use blockchain_protocol_v.RewardPool.Query.{accumlated-eq-paid}
use blockchain_protocol_v.RewardPool.Claims.{claim_twice}
use blockchain_protocol_v.RewardPool.Calc.{
  get_rewards_by_account_shares, calc_reward_by_shares, settle, pay_out, calc_pool_reward_at_block,
}
use blockchain_protocol_v.RewardPool.History.{
  run, Op, adds_share, passes_blocks, claims_rewards, removes_share, run-Inv, step,
}
use blockchain_protocol_v.RewardPool.Accounting.{Inv}
use blockchain_protocol_v.RewardPool.Leaving.{Whole, sole_holder_leaves}
use blockchain_protocol_v.RewardPool.Locking.{dust_locks_pool}
use blockchain_protocol_v.Common.{
  inl, inr, Bool-cases, ℕ, ◌<◌, ◌+◌, ◌-◌, ◌*◌, ◌/◌, ◌≡◌, refl, Option, none, some, nat_eq, leb,
  nat_beq, if◌then◌else◌, arith, [], ◌∷◌, ◌^◌, List,
}
use blockchain_protocol_v.Common.Errors.{Result, ok, err, foreign}
use native.Mathlib.Nat.{mul-div_right}
use blockchain_protocol_v.RewardPool.Ops.{
  add_share, remove_share, get_accumlated_rewards, get_account_shares, claim_rewards,
  claim_rewards_at, remove_share_at, update_pool_reward, claim_reward_of, calc_pool_reward,
  add_share_at,
}
use blockchain_protocol_v.RewardPool.Types.{
  PoolInfo, PoolAccountInfo, Config, State, put_pool, get_pool_info,
}

-- Balances by account.
abbrev Ledger : Type 0
Ledger = ℕ → ℕ

abbrev credit : ℕ → ℕ → Ledger → Ledger
credit who amount l = λ x. if nat_beq x who then l x + amount else l x

abbrev debit : ℕ → ℕ → Ledger → Ledger
debit who amount l = λ x. if nat_beq x who then l x - amount else l x

abbrev send : ℕ → ℕ → ℕ → Ledger → Result Ledger
send from to amount l =
    if leb amount (l from) then ok (credit to amount (debit from amount l)) else err (foreign 0)

-- `FixedU128`: eighteen decimals.
abbrev accuracy : ℕ
accuracy = 10 ^ 18

abbrev ratio : ℕ → ℕ → Option ℕ
ratio n d = if nat_beq d 0 then none else some (n * accuracy / d)

-- Pools with a reward of 100 for each block, and accounts from 1000 on.
abbrev chain : Config ℕ Ledger ℕ
chain = record {
  sub_account_id = λ pool. 1000 + pool;
  caculate_reward = λ pool shares last now. 100 * (now - last);
  get_native_currency_id = 0;
  existential_reward = 10;
  update_balance = λ currency who amount l. ok (credit who amount l);
  transfer = λ currency from to amount l. send from to amount l;
  ratio_zero = 0;
  checked_from_rational = ratio;
  checked_mul_int = λ r x. some (r * x / accuracy);
}

abbrev genesis : State ℕ Ledger
genesis = record { pools = []; pool_account_data = []; ledger = λ x. 0; block_number = 1 }

abbrev held : ℕ → Result Ledger → ℕ
held who (ok l) = l who
held who (err x) = 0

whole : Whole chain
whole n x pos fn fx =
    let one : n * accuracy / n ≡ accuracy = mul-div_right accuracy pos in
    let all : accuracy * x / accuracy ≡ x = mul-div_right x (omega arith) in
    ground (arith, one, all)

genesis-Inv : Inv genesis
genesis-Inv pool = record { shares = refl; rewards = omega arith }

abbrev history : List (Op chain)
history =
    adds_share 1 0 50
    ∷ passes_blocks 10
    ∷ adds_share 2 0 25
    ∷ claims_rewards 1 0
    ∷ removes_share 2 0 25
    ∷ []

run-Inv_example : Inv (run chain genesis history)
run-Inv_example = run-Inv chain genesis history genesis-Inv

-- The pools of the incentives, with a reward of 100 for each block of one of them.
abbrev account_of : PoolId → ℕ
account_of (dex k) = 1000 + (4 * discriminant k.left + discriminant k.right)

abbrev pair : PoolId
pair = dex (record { left = clv; right = ceth })

abbrev incentives : Config PoolId Ledger ℕ
incentives =
    with_incentives
      (record {
        sub_account_id = account_of;
        caculate_reward = λ pool shares last now. 0;
        get_native_currency_id = 0;
        existential_reward = 10;
        update_balance = λ currency who amount l. ok (credit who amount l);
        transfer = λ currency from to amount l. send from to amount l;
        ratio_zero = 0;
        checked_from_rational = ratio;
        checked_mul_int = λ r x. some (r * x / accuracy);
      })
      ((pair, 100) ∷ [])

abbrev start : State PoolId Ledger
start = record { pools = []; pool_account_data = []; ledger = λ x. 0; block_number = 1 }

abbrev paid_history : List (Op incentives)
paid_history = adds_share 1 pair 50 ∷ passes_blocks 10 ∷ claims_rewards 1 pair ∷ []

-- Two accounts hold the pool, and rewards accrued.
abbrev busy : State ℕ Ledger
busy = run chain genesis (adds_share 1 0 50 ∷ adds_share 2 0 25 ∷ passes_blocks 10 ∷ [])

claim_twice_example :
    let s' = (claim_rewards chain 1 0 busy).1 in
    claim_rewards chain 1 0 s' ≡ (ok 0, put_pool 0 (get_pool_info 0 s') s')
unfolding run step add_share claim_rewards claim_rewards_at claim_reward_of update_pool_reward
    calc_pool_reward calc_pool_reward_at_block add_share_at calc_reward_by_shares
claim_twice_example = claim_twice chain 1 0 busy {r = 766} (omega arith) refl

accumlated-eq-paid_example :
    (l : Ledger) × (send 1000 1 (get_accumlated_rewards chain 1 0 busy) l
      ≡ ok (remove_share chain 1 0 50 busy).1.ledger)
unfolding run step add_share remove_share remove_share_at get_account_shares update_pool_reward
    calc_pool_reward calc_pool_reward_at_block add_share_at calc_reward_by_shares
    get_rewards_by_account_shares settle pay_out
accumlated-eq-paid_example =
    accumlated-eq-paid chain 1 0 busy {n = 0} {s' = (remove_share chain 1 0 50 busy).1} refl

abbrev full_pool : PoolInfo
full_pool = record {
  total_shares = 75;
  total_rewards = 105;
  total_rewards_useable = 100;
  last_update_block = 1;
}

abbrev holder : PoolAccountInfo
holder = record { shares = 75; borrowed_amount = 5 }

sole_holder_leaves_example :
    get_rewards_by_account_shares chain full_pool holder 75
    ≡ ok (
      record full_pool { total_shares = 0; total_rewards = 0; total_rewards_useable = 0 },
      record { shares = 0; borrowed_amount = 0 },
      100,
    )
sole_holder_leaves_example =
    sole_holder_leaves chain whole full_pool holder refl (omega arith) (omega arith) (omega arith)
      (omega arith)

-- Two shares, of which the second borrowed what the first was owed.
abbrev shared : State ℕ Ledger
shared = record {
  pools =
      (
        0,
        record {
          total_shares = 2;
          total_rewards = 10;
          total_rewards_useable = 5;
          last_update_block = 1;
        },
      )
      ∷ [];
  pool_account_data =
      (
        0,
        (1, record { shares = 1; borrowed_amount = 0 })
            ∷ (2, record { shares = 1; borrowed_amount = 5 })
            ∷ [],
      )
      ∷ [];
  ledger = λ x. 5;
  block_number = 1;
}

shared-Inv : Inv shared
shared-Inv pool = elim (Bool-cases (nat_beq pool 0)) [
  | inl here ↦ rw here (record { shares = refl; rewards = omega arith })
  | inr other ↦ rw other (record { shares = refl; rewards = omega arith })
]

-- After the second account left, a third joins and the first leaves.
abbrev afterwards : List (Op chain)
afterwards = adds_share 3 0 4 ∷ passes_blocks 10 ∷ removes_share 1 0 1 ∷ removes_share 3 0 4 ∷ []

dust_locks_pool_example :
    0 < (get_pool_info 0 (run chain (remove_share chain 2 0 1 shared).1 afterwards)).total_shares
unfolding remove_share remove_share_at update_pool_reward calc_pool_reward get_account_shares
    calc_pool_reward_at_block get_rewards_by_account_shares calc_reward_by_shares settle pay_out
    get_accumlated_rewards
dust_locks_pool_example =
    dust_locks_pool chain whole 2 0 shared {n = 0} {s' = (remove_share chain 2 0 1 shared).1}
      shared-Inv (omega arith) (omega arith) (omega arith) refl refl (omega arith) afterwards
