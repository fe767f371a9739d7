-- ===== src/Staking/Tests.antt =====
-- The theorems of the eras of frame/staking at a small chain.
use blockchain_protocol_v.Revenue.Wallet.{trigger_wallet, pot}
use blockchain_protocol_v.Staking.Reserves.{reserved_with, end_era_reserves_fund}
use blockchain_protocol_v.Common.{ℕ, ◌≡◌, refl, some, [], ◌∷◌, arith, nat_eq, ◌*◌, ◌^◌, false}
use blockchain_protocol_v.Common.Errors.{ok}
use blockchain_protocol_v.Revenue.Wallet
use blockchain_protocol_v.Staking.Eras.{State, end_era, pay_era, fund_balance}

-- The fund holds 10 and the wallet nothing, in units of the existential deposit.
abbrev chain : Wallet.Config ℕ ℕ
chain = record {
  origins = record { is_root = λ o. false; signer = λ o. some o; is_none = λ o. false };
  currency = record {
    free_balance = λ l who. who * l;
    minimum_balance = 1;
    deposit_creating = λ who amount l. l;
    withdraw = λ who amount l. ok l;
    transfer = λ from to amount l. ok l;
    make_free_balance_be = λ who amount l. l;
  };
  account_id = 0;
  reward_fund_id = 10;
}

abbrev start : State ℕ
start = record {
  wallet = record { ledger = 10 ^ 17; events = [] };
  history_depth = 3;
  eras_validator_reward = [];
  eras_not_claimed_reward = (6, 5) ∷ (7, 100) ∷ (8, 200) ∷ [];
  offending_validators = (4, false) ∷ [];
  events = [];
}

end_era_reserves_fund_example :
    reserved_with 9 (end_era chain (record { index = 9; start = some 1 }) start) ≡ 9 * 10 ^ 17
unfolding end_era pay_era fund_balance trigger_wallet pot
end_era_reserves_fund_example =
    end_era_reserves_fund chain (record { index = 9; start = some 1 }) 1 start refl (omega arith)
