-- ===== src/Staking/CallTests.antt =====
-- The theorems of the calls and payouts of frame/staking at a small chain.
use blockchain_protocol_v.Common.{
  ℕ, ◌≡◌, ◌+◌, ◌-◌, ◌*◌, ◌/◌, ◌<◌, refl, true, false, none, some, List, [], ◌∷◌, arith, nat_eq, min,
  u128_mod,
}
use blockchain_protocol_v.Common.Errors.{ok, err, staking, staking_already_claimed}
use blockchain_protocol_v.Staking.Calls.{
  execute, start, called, slash_applied, bond_by, unbond_by, validate_by,
}
use blockchain_protocol_v.Staking.Invariant.{Inv}
use blockchain_protocol_v.Staking.Offences.{
  SlashParams, compute_slash, compute_greatest, when_slashed,
}
use blockchain_protocol_v.Staking.Reports.{report_once}
use blockchain_protocol_v.Staking.Paid.{payout_once}
use blockchain_protocol_v.Staking.Payouts.{
  do_payout_stakers, claim_and_pay, pay_stakers, pay, make_payout, settle_payout,
}
use blockchain_protocol_v.Staking.Reachable.{reachable-Inv}
use blockchain_protocol_v.Staking.Slashing.{apply_slash, pay_reporters}
use blockchain_protocol_v.Staking.SlashingInv.{pay_reporters_conserves}
use blockchain_protocol_v.Staking.Types.{Config, State, staked, to_stash, not_forcing}

-- The accounts are only what they hold together, at most 1000 of it free for each.
abbrev pub chain : Config ℕ ℕ (List ℕ)
chain = record {
  wallet = record {
    origins = record { is_root = λ o. false; signer = λ o. some o; is_none = λ o. false };
    currency = record {
      free_balance = λ l who. min l 1000;
      minimum_balance = 10;
      deposit_creating = λ who amount l. l + amount;
      withdraw = λ who amount l. ok l;
      transfer = λ from to amount l. ok l;
      make_free_balance_be = λ who amount l. l;
    };
    account_id = 0;
    reward_fund_id = 10;
  };
  total_balance = λ l who. l;
  total_issuance = λ l. l;
  set_lock = λ who amount l. l;
  remove_lock = λ who l. l;
  deposit_creating = λ who amount l. (amount, l + amount);
  deposit_into_existing = λ who amount l. some (amount, l + amount);
  settle_imbalance = λ who amount l. (true, l - amount);
  slash_balance = λ who amount l. (amount, 0, l - amount);
  resolve_creating = λ who amount l. l + amount;
  on_unbalanced = λ amount l. l + amount;
  inc_consumers = λ who l. some l;
  dec_consumers = λ who l. l;
  lookup = λ who. ok who;
  session_validators = λ l. 3 ∷ 1 ∷ [];
  disable_validator = λ index l. l;
  voter_contains = λ who voters. false;
  voter_insert = λ who weight voters. who ∷ voters;
  voter_update = λ who weight voters. voters;
  voter_remove = λ who voters. voters;
  to_vote = λ balance issuance. balance;
  part = λ n d x. x * n / d;
  perbill = λ p x. x * p / 1000000000;
  ratio = λ n d x. x * n / d;
  percent = λ p x. x * p / 100;
  bonding_duration = 3;
  max_nominations = 16;
  offending_validators_threshold = 500000000;
}

-- Nobody has bonded, and era 8 is planned.
abbrev pub genesis : State ℕ (List ℕ)
genesis = record {
  eras = record {
    wallet = record { ledger = 5000; events = [] };
    history_depth = 84;
    eras_validator_reward = (7, 400) ∷ [];
    eras_not_claimed_reward = (7, 400) ∷ [];
    offending_validators = [];
    events = [];
  };
  current_era = some 8;
  bonded = [];
  ledger = [];
  payee = [];
  validators = [];
  nominators = [];
  voters = [];
  min_nominator_bond = 0;
  min_validator_bond = 0;
  min_commission = 0;
  max_validators_count = none;
  max_nominators_count = none;
  chill_threshold = none;
  slashing_spans = [];
  span_slash = [];
  validator_slash_in_era = [];
  nominator_slash_in_era = [];
  force_era = not_forcing;
  eras_stakers_clipped =
      ((7, 1), record { total = 100; own = 60; others = (record { who = 3; value = 40 }) ∷ [] })
      ∷ [];
  eras_validator_prefs = [];
  eras_reward_points = (7, record { total = 20; individual = (1, 10) ∷ [] }) ∷ [];
  events = [];
}

genesis-Inv : Inv genesis
genesis-Inv = record {
  paired = λ stash c. (λ h. cc, λ h. cc);
  good = λ c l h. absurd (cc);
  exclusive = λ who h. refl;
}

balances_fit : (a who : ℕ) → chain.wallet.currency.free_balance a who < u128_mod
balances_fit a who = omega arith

-- Stash 1 bonds with controller 2, which validates and unbonds a part; then the stash is slashed.
abbrev reached : State ℕ (List ℕ)
reached =
    apply_slash chain
      (record { validator = 1; own = 50; others = []; reporters = 4 ∷ []; payout = 20 }) 7
      (execute chain 2 (unbond_by 300)
        (execute chain 2 (validate_by (record { commission = 0; blocked = false }))
          (execute chain 1 (bond_by 2 900 staked) genesis).1).1).1

reachable-Inv_example : Inv reached
reachable-Inv_example = reachable-Inv chain balances_fit genesis reached genesis-Inv (
    slash_applied (record { validator = 1; own = 50; others = []; reporters = 4 ∷ []; payout = 20 })
      7
      (called 2 (unbond_by 300) (
        called 2 (validate_by (record { commission = 0; blocked = false }))
          (called 1 (bond_by 2 900 staked) start))))

-- The stash of the validator that era 7 pays half of its reward.
abbrev rewarding : State ℕ (List ℕ)
rewarding = record genesis {
  bonded = (1, 2) ∷ [];
  ledger =
      (2, record { stash = 1; total = 60; active = 60; unlocking = []; claimed_rewards = 6 ∷ [] })
      ∷ [];
  payee = (3, to_stash) ∷ [];
}

payout_once_example :
    let s = (do_payout_stakers chain 1 7 rewarding).1 in
    do_payout_stakers chain 1 7 s ≡ (err (staking staking_already_claimed), s)
unfolding do_payout_stakers claim_and_pay pay_stakers pay make_payout settle_payout
payout_once_example = payout_once chain 1 7 rewarding refl

pay_reporters_conserves_example : pay_reporters chain 20 50 (4 ∷ 5 ∷ 6 ∷ []) 100 ≡ 100 + 50
pay_reporters_conserves_example =
    pay_reporters_conserves chain (λ a. a) (λ who amount a. refl) (λ amount a. refl) 20 50
      (4 ∷ 5 ∷ 6 ∷ []) 100 (omega arith)

-- Stash 1 is reported for a tenth, and then for a twentieth, of what it exposes in era 7.
abbrev report : ℕ → SlashParams
report part = record {
  stash = 1;
  slash = part;
  exposure = record { total = 100; own = 60; others = (record { who = 3; value = 40 }) ∷ [] };
  slash_era = 7;
  window_start = 5;
  now = 8;
  reward_proportion = 100000000;
  disable_strategy = when_slashed;
}

report_once_example :
    let s = (compute_slash chain (report 100000000) rewarding).1 in
    compute_slash chain (report 50000000) s ≡ (none, s)
unfolding compute_slash compute_greatest
report_once_example =
    report_once chain (report 100000000) (report 50000000) rewarding refl refl refl (omega arith)
      (omega arith)
