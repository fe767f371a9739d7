-- ===== src/Common/Errors.antt =====
-- `DispatchError`: the errors that the pallets declare (`decl_error!`, `#[pallet::error]`) and
-- those of code outside the repository, which are only passed on.
use Prim.Native.Nat.{ℕ}
use mathlib.Core.Path.{◌≡◌}
use native.Mathlib.Omega.{arith}
use mathlib.Core.Option.{Option, none, some}

-- modules/reward-pool/src/lib.rs
pub data RewardPoolError : Type 0 where
  reward_caculation_error insufficient_shares invalid_amount invalid_rewards : RewardPoolError

-- modules/incentives/src/lib.rs
pub data IncentivesError : Type 0 where
  invalid_currency_pair : IncentivesError

-- modules/claims/src/lib.rs
pub data ClaimsError : Type 0 where
  no_permission already_minted already_claimed claim_limit_exceeded tx_not_minted : ClaimsError
  invalid_ethereum_signature signature_not_match invalid_claim_amount : ClaimsError

-- modules/evm-accounts/src/lib.rs
pub data EvmAccountsError : Type 0 where
  account_id_has_mapped eth_address_has_mapped bad_signature invalid_signature : EvmAccountsError
  non_zero_ref_count still_has_active_reserved : EvmAccountsError

-- modules/asset-config/src/lib.rs
pub data AssetConfigError : Type 0 where
  asset_already_registered : AssetConfigError

-- modules/erc20-precompile/src/lib.rs
pub data Erc20Error : Type 0 where
  invalid_address invalid_asset address_registered : Erc20Error

-- frame/staking/src/pallet/mod.rs
pub data StakingError : Type 0 where
  not_controller not_stash already_bonded already_paired empty_targets : StakingError
  invalid_slash_index insufficient_bond no_more_chunks no_unlock_chunk : StakingError
  funded_target invalid_era_to_reward staking_already_claimed not_sorted_and_unique : StakingError
  incorrect_slashing_spans bad_state too_many_targets bad_target cannot_chill_other : StakingError
  too_many_nominators too_many_validators commission_too_low cannot_payout : StakingError

-- `bad_origin` is what a failed origin check gives, `cannot_donate` is
-- `DispatchError::Other("Can't make donation")`, and `foreign` any error of outside code.
pub data DispatchError : Type 0 where
  bad_origin cannot_donate : DispatchError
  reward_pool : RewardPoolError → DispatchError
  incentives : IncentivesError → DispatchError
  claims : ClaimsError → DispatchError
  evm_accounts : EvmAccountsError → DispatchError
  asset_config : AssetConfigError → DispatchError
  erc20 : Erc20Error → DispatchError
  staking : StakingError → DispatchError
  foreign : ℕ → DispatchError

pub data Result {ℓ} (A : Type ℓ) : Type ℓ where
  ok : A → Result A
  err : DispatchError → Result A

abbrev pub ok_or {ℓ} : {A : Type ℓ} → Option A → DispatchError → Result A
ok_or none e = err e
ok_or (some a) e = ok a

pub ok_or-some {ℓ} :
    {A : Type ℓ} (o : Option A) (e : DispatchError) {a : A} → ok_or o e ≡ ok a → o ≡ some a
ok_or-some o e h = ground (arith, h)
