-- ===== src/Lib.antt =====
-- The blockchain protocol's own pallets: reward pools and their incentives, the bridge that mints
-- and pays claims, the accounts that Ethereum addresses are mapped to, the registries of assets, the
-- revenue of contracts, the trader that sells execution weight for assets, and the
-- chain's forks of staking and of the Ethereum pallet.
--
-- A pallet keeps its storage as a record, its calls are actions on it, and an action gives a result
-- and the new storage. What was written before an error stays written unless the code runs under a
-- transaction. Parts and files:
--
-- Common: tests, fixed-width arithmetic, storage maps as association lists, dispatch errors, and the
-- actions. Frame: the origins and the currency of the frame, which are outside code and so records
-- of operations.
-- RewardPool (modules/reward-pool/src/lib.rs): Types is the storage and the configuration; Calc the
-- calculations that read no storage (calc_reward_by_shares, get_rewards_by_account_shares with its
-- parts settle and pay_out, calc_pool_reward_at_block); Ops the operations of RewardPoolOps, each
-- with its part after the update of the pool (add_share_at, remove_share_at, claim_rewards_at,
-- claim_reward_of). Accounting, Accrual, Adding, Removing and Claiming describe the operations case
-- by case; History, Solvency, Leaving, Stuck, Locking, Claims and Query hold what is shown of them.
-- Traits (modules/traits/src): the operations of a reward pool, which Incentives takes and RewardPool
-- fills. Incentives (modules/incentives/src/lib.rs): Pairs is PairKey and PoolId, Rewards the genesis
-- build and caculate_reward, Ops the operations of IncentiveOps over any reward pool; Accrual joins
-- caculate_reward to the pools.
-- Ethereum (modules/claims/src/ethereum_address.rs and the signed message of
-- modules/claims/src/lib.rs): Hex is to_ascii_hex, Message is ethereum_signable_message and
-- eth_recover. The evm accounts use them with their own prefix.
-- Claims (modules/claims/src/lib.rs): Types is the storage, Internal the do_ functions, Calls the
-- dispatchable calls and validate_unsigned, Upgrade on_runtime_upgrade; Effects states an abstract
-- bridge that the calls refine.
-- EvmAccounts (modules/evm-accounts/src/lib.rs): Mapping is the two maps and on_killed_account, Calls
-- is claim_account.
-- Registry: AssetConfig (modules/asset-config/src/lib.rs) and Erc20
-- (modules/erc20-precompile/src/lib.rs). The trader reads its prices from AssetConfig.
-- Revenue: Whitelist (frame/pallet-revenue/src/lib.rs) and Wallet
-- (frame/pallet-revenue-fund/src/lib.rs, with the handler of frame/pallet-fund/src/lib.rs). Books
-- is about what the wallet pays and announces.
-- Staking (frame/staking/src): Eras and Reserves are the end of an era, which calls the wallet and
-- reserves the fund for the era's reward, and the update of what is left to claim
-- (pallet/impls.rs). Ledger and Slash are StakingLedger (lib.rs), Sound, GoodLedger and SlashSound
-- its books; Spans and SpanEras the slashing spans (slashing.rs). Types is the storage and the
-- configuration, Stakers the functions that the calls share; Bonding, Withdrawal and Roles are the
-- calls of stakers (pallet/mod.rs), which Calls puts together; Slashing applies slashes, Inspecting
-- is InspectingSpans, and Offences is compute_slash (slashing.rs). Pairing, Invariant, BondingInv,
-- RemovalInv, RolesInv, SlashingInv and OffencesInv lead to Reachable, the invariant of all of
-- them; SpanSlashes and Reports are about slashes of the same stash and the same era. Exposures is
-- collect_exposures with the clipping, Planning new_session down to store_stakers_info, Sessions
-- start_session, end_session and start_era, with rotate for what the session pallet calls between
-- two sessions, and Deferral on_offence and cancel_deferred_slash; they work on Chain, the stakers'
-- storage with that of the eras. Points is reward_by_ids. Views, Rotation and Window are about the
-- planned, the active and the bonded eras, Queues and Cancelling about deferred slashes. Payouts is
-- do_payout_stakers; ClaimedEras, SameClaims and Paid show that it pays once. Loops over chunks,
-- indices, spans, targets and eras are recursions on the list or the number.
-- Transactions (frame/ethereum/src/lib.rs): Validate is validate_transaction_common and
-- validate_transaction_in_pool, which ask Revenue's whitelist about the contract that is called.
-- Payable and Priority are about what it asks for and how it ranks.
-- Trader (runtime/src/asset_trader.rs): Weights is FungibleAssetTrader and XcmPayToAccount.
-- Runtime (runtime/src): Conversions is AssetLocation (asset_location.rs) and the conversions of gas
-- and of votes (lib.rs), Fees DealWithFees (lib.rs), Merging MergeAccountEvm (impls.rs) and the merge
-- of a tuple of modules (modules/traits/src/account.rs), Precompiles CloverPrecompiles
-- (precompiles.rs). The weight of a second, the locations, and the precompiled contracts are
-- parameters.
--
-- Numbers are natural numbers; where the code adds, subtracts or multiplies with a check or a cap,
-- the model has the check or the cap at the same width. The fixed-point ratios of the reward pool
-- are operations of its configuration. Eras, sessions and span indices count up one by one and are
-- not wrapped. The loop that prints a length takes that length as fuel, since every round divides
-- by ten. Accounts are numbers, and the bytes that encode them are a parameter; so are hashing, the
-- recovery of a public key, the currencies with their locks and imbalances, the fractions of
-- staking (Perbill, Percent, Perquintill), the list of voters, the election, and the system's
-- accounts. A storage map that is iterated is iterated in the order of its list.
--
-- Not modelled: of staking, the election and the voters that it reads, the genesis, the calls of
-- root that set a value, and weights; the execution of Ethereum transactions, which is Frontier's,
-- the wiring and weights of the runtime, the node and its RPC; the formatting of addresses for
-- people and for JSON; the logs of the code.
pub mod Common
pub mod RewardPool
pub mod Traits
pub mod Incentives
pub mod Ethereum
pub mod Frame
pub mod Claims
pub mod Trader
pub mod EvmAccounts
pub mod Runtime
pub mod Registry
pub mod Revenue
pub mod Staking
pub mod Transactions
