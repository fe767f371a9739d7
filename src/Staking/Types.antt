-- ===== src/Staking/Types.antt =====
-- The storage of frame/staking/src/pallet/mod.rs, the types of frame/staking/src/lib.rs that it
-- holds, and what the pallet takes from its configuration.
use blockchain_protocol_v.Common.{ℕ, Bool, Option, List}
use blockchain_protocol_v.Common.Errors.{Result}
use blockchain_protocol_v.Common.Storage.{Map}
use blockchain_protocol_v.Revenue.Wallet
use blockchain_protocol_v.Staking.Eras
use blockchain_protocol_v.Staking.Ledger.{StakingLedger}
use blockchain_protocol_v.Staking.Spans.{SlashingSpans, SpanRecord}

pub data RewardDestination : Type 0 where
  staked to_stash to_controller : RewardDestination
  to_account : ℕ → RewardDestination
  no_reward : RewardDestination

pub record ValidatorPrefs : Type 0 where
  pub commission : ℕ
  pub blocked : Bool

pub record Nominations : Type 0 where
  pub targets : List ℕ
  pub submitted_in : ℕ
  pub suppressed : Bool

pub record IndividualExposure : Type 0 where
  pub who : ℕ
  pub value : ℕ

pub record Exposure : Type 0 where
  pub total : ℕ
  pub own : ℕ
  pub others : List IndividualExposure

pub record EraRewardPoints : Type 0 where
  pub total : ℕ
  pub individual : Map ℕ ℕ

pub data Forcing : Type 0 where
  not_forcing force_new force_none force_always : Forcing

pub data Event : Type 0 where
  bonded unbonded withdrawn rewarded kicked slashed payout_started : ℕ → ℕ → Event
  chilled : ℕ → Event
  validator_prefs_set : ℕ → ValidatorPrefs → Event

-- `Accounts` are the balances, their locks and the reference counts, `Voters` the sorted list of
-- voters. `part n d x` is `Perbill::from_rational(n, d) * x`, `perbill p x` is `p * x` for a
-- `Perbill` of `p` parts, and `percent` the same for a `Percent`. A deposit also returns the
-- imbalance that it makes.
pub record Config (Origin Accounts Voters : Type 0) : Type 0 where
  pub wallet : Wallet.Config Origin Accounts
  pub total_balance : Accounts → ℕ → ℕ
  pub total_issuance : Accounts → ℕ
  pub set_lock : ℕ → ℕ → Accounts → Accounts
  pub remove_lock : ℕ → Accounts → Accounts
  pub deposit_creating : ℕ → ℕ → Accounts → ℕ × Accounts
  pub deposit_into_existing : ℕ → ℕ → Accounts → Option (ℕ × Accounts)
  -- `settle` of an imbalance with the reason TRANSFER and KeepAlive; on an error the imbalance is
  -- dropped.
  pub settle_imbalance : ℕ → ℕ → Accounts → Bool × Accounts
  -- `Currency::slash`, with the imbalance and what was missing, `resolve_creating`, and `OnUnbalanced` of
  -- the slashes.
  pub slash_balance : ℕ → ℕ → Accounts → ℕ × ℕ × Accounts
  pub resolve_creating : ℕ → ℕ → Accounts → Accounts
  pub on_unbalanced : ℕ → Accounts → Accounts
  pub inc_consumers : ℕ → Accounts → Option Accounts
  pub dec_consumers : ℕ → Accounts → Accounts
  pub lookup : ℕ → Result ℕ
  pub session_validators : Accounts → List ℕ
  pub disable_validator : ℕ → Accounts → Accounts
  pub voter_contains : ℕ → Voters → Bool
  pub voter_insert : ℕ → ℕ → Voters → Voters
  pub voter_update : ℕ → ℕ → Voters → Voters
  pub voter_remove : ℕ → Voters → Voters
  pub to_vote : ℕ → ℕ → ℕ
  pub part : ℕ → ℕ → ℕ → ℕ
  pub perbill : ℕ → ℕ → ℕ
  -- `Perquintill::from_rational(a, b) * x`
  pub ratio : ℕ → ℕ → ℕ → ℕ
  pub percent : ℕ → ℕ → ℕ
  pub bonding_duration : ℕ
  pub max_nominations : ℕ
  pub offending_validators_threshold : ℕ

-- An entry of `nominators` that cannot be decoded is `none`. `eras` holds the accounts, and the
-- event of the end of an era.
pub record State (Accounts Voters : Type 0) : Type 0 where
  pub eras : Eras.State Accounts
  pub current_era : Option ℕ
  pub bonded : Map ℕ ℕ
  pub ledger : Map ℕ StakingLedger
  pub payee : Map ℕ RewardDestination
  pub validators : Map ℕ ValidatorPrefs
  pub nominators : Map ℕ (Option Nominations)
  pub voters : Voters
  pub min_nominator_bond : ℕ
  pub min_validator_bond : ℕ
  pub min_commission : ℕ
  pub max_validators_count : Option ℕ
  pub max_nominators_count : Option ℕ
  pub chill_threshold : Option ℕ
  pub slashing_spans : Map ℕ SlashingSpans
  pub span_slash : Map (ℕ × ℕ) SpanRecord
  pub validator_slash_in_era : Map (ℕ × ℕ) (ℕ × ℕ)
  pub nominator_slash_in_era : Map (ℕ × ℕ) ℕ
  pub force_era : Forcing
  pub eras_stakers_clipped : Map (ℕ × ℕ) Exposure
  pub eras_validator_prefs : Map (ℕ × ℕ) ValidatorPrefs
  pub eras_reward_points : Map ℕ EraRewardPoints
  pub events : List Event
