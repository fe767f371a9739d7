-- ===== src/Claims/Tests.antt =====
-- The theorems of modules/claims/src/lib.rs at a small bridge.
use blockchain_protocol_v.Claims.Migration.{upgrade_moves}
use blockchain_protocol_v.Claims.Claiming.{do_claim_sound, validate_agrees}
use blockchain_protocol_v.Claims.Upgrade.{on_runtime_upgrade}
use blockchain_protocol_v.Claims.Limits.{allowance, run-allowance}
use blockchain_protocol_v.Claims.Effects.{Effect, dispatch-Effect}
use blockchain_protocol_v.Claims.Calls.{
  ValidTransaction, Call, validate_unsigned, dispatch, mint_claim_elastic, claim_elastic,
  burn_elastic, valid,
}
use blockchain_protocol_v.Claims.Internal.{do_claim, recovered}
use blockchain_protocol_v.Common.Storage.{insert}
use blockchain_protocol_v.Common.{
  pair_eq, nat_eq, ℕ, ◌+◌, ◌-◌, ◌≡◌, refl, Bool, true, false, Option, some, none, [], ◌∷◌, List,
  arith, leb, if◌then◌else◌, replicate, ◌↔◌,
}
use blockchain_protocol_v.Common.Errors
use blockchain_protocol_v.Common.Errors.{Result, ok, err, foreign, already_claimed, no_permission}
use blockchain_protocol_v.Ethereum.Message.{eth_recover}
use blockchain_protocol_v.Claims.Types.{
  network_eq, Config, State, bsc, network_eq, claim_of, limit_of, bridge_account_of,
  EthereumAddress,
}
use blockchain_protocol_v.Claims.History.{run, Stays, run-Stays, no_double_claim}
use blockchain_protocol_v.Claims.Minting.{Mints}

data Origin : Type 0 where
  root unsigned : Origin
  signed : ℕ → Origin

abbrev is_root : Origin → Bool
is_root root = true
is_root _ = false

abbrev signer : Origin → Option ℕ
signer (signed who) = some who
signer _ = none

abbrev is_none : Origin → Bool
is_none unsigned = true
is_none _ = false

-- The ledger is the total issuance.
abbrev burned : ℕ → ℕ → ℕ → Result ℕ
burned who amount l = if leb amount l then ok (l - amount) else err (foreign 0)

-- Every signature is by the owner of the same address, and hashing keeps a text.
abbrev bridge : Config Origin ℕ ℕ
bridge = record {
  origins = record { is_root = is_root; signer = signer; is_none = is_none };
  currency = record {
    free_balance = λ l who. l;
    minimum_balance = 1;
    deposit_creating = λ who amount l. l + amount;
    withdraw = burned;
    transfer = λ from to amount l. ok l;
    make_free_balance_be = λ who amount l. l;
  };
  crypto = record {
    keccak_256 = λ text. text;
    secp256k1_ecdsa_recover = λ sig text. some (replicate 32 sig);
  };
  account_id = 100;
  prefix = [];
  encode_account = λ who. who ∷ [];
  encode_hash = λ tx. tx ∷ [];
  encode_tag = λ address. address;
}

abbrev owner : List ℕ
owner = replicate 20 9

-- Account 1 bridges BSC, with a limit of 50 and fees of 2 and 3.
abbrev start : State ℕ
start = record {
  bridge_account = some 8;
  claim_limit = 40;
  claims = (6, some (owner, 10, false)) ∷ [];
  mint_fee = some 1;
  burn_fee = none;
  elastic_bridge_accounts = (bsc, some 1) ∷ [];
  elastic_claim_limits = (bsc, 50) ∷ [];
  bridge_fees = (bsc, (2, 3)) ∷ [];
  elastic_claims = (((bsc, 5), (owner, 20, false))) ∷ [];
  pallet_storage_version = 1;
  events = [];
  ledger = 1000;
}

mintable : Mints bridge 1 bsc 7 12 10 start
mintable = record { permitted = refl; fresh = refl; within = omega arith; split = refl }

abbrev minted_state : State ℕ
minted_state = record start {
  elastic_claims = insert (bsc, 7) (owner, 10, false) start.elastic_claims;
  elastic_claim_limits = insert bsc 40 start.elastic_claim_limits;
  ledger = 1002;
}

-- Account 3 claims what was minted to the owner.
abbrev claimed_state : State ℕ
claimed_state = record start {
  elastic_claims = insert (bsc, 5) (owner, 20, true) start.elastic_claims;
  ledger = 1020;
}

do_claim_sound_example :
    (claim_of bsc 5 start ≡ some (owner, 20, false))
    × (recovered bridge 3 5 9 ≡ some owner)
    × (claimed_state ≡ record start {
      ledger = 1020;
      elastic_claims = insert (bsc, 5) (owner, 20, true) start.elastic_claims;
    })
unfolding do_claim eth_recover
do_claim_sound_example = do_claim_sound bridge bsc 3 5 9 start {s' = claimed_state} refl

validate_agrees_example :
    ((v : ValidTransaction) × (validate_unsigned bridge (claim_elastic bsc 3 5 9) start ≡ valid v))
    ↔ ((r : EthereumAddress × ℕ) × ((do_claim bridge bsc 3 5 9 start).0 ≡ ok r))
validate_agrees_example = validate_agrees bridge bsc 3 5 9 start

abbrev burned_state : State ℕ
burned_state = record start { ledger = 983 }

dispatch-Effect_example :
    Effect none start (dispatch bridge unsigned (claim_elastic bsc 3 5 9) start).1
dispatch-Effect_example = dispatch-Effect bridge unsigned (claim_elastic bsc 3 5 9) start

abbrev calls : List (Origin × Call ℕ)
calls =
    (signed 1, mint_claim_elastic bsc 7 owner 12)
    ∷ (signed 4, burn_elastic bsc owner 20)
    ∷ (unsigned, claim_elastic bsc 3 7 9)
    ∷ []

run-Stays_example : Stays (owner, 20, false) (claim_of bsc 5 (run bridge start calls))
run-Stays_example = run-Stays bridge bsc 5 (owner, 20, false) start calls refl

no_double_claim_example :
    do_claim bridge bsc 4 5 9 (run bridge claimed_state calls)
    ≡ (err (Errors.claims already_claimed), run bridge claimed_state calls)
unfolding do_claim eth_recover
no_double_claim_example = no_double_claim bridge bsc 5 3 4 9 9 start {s' = claimed_state} calls refl

run-allowance_example : allowance bsc (run bridge start calls) ≡ allowance bsc start
run-allowance_example =
    run-allowance bridge bsc start calls ((λ h. cc h), ((λ h. cc h), ((λ h. cc h), tt)))

-- No bridge account of a network is set, and the old one is 8.
abbrev old : State ℕ
old = record start { elastic_bridge_accounts = [] }

upgrade_moves_example :
    (claim_of bsc 6 (on_runtime_upgrade old).1 ≡ some (owner, 10, false))
    × (limit_of bsc (on_runtime_upgrade old).1 ≡ 40)
    × (bridge_account_of bsc (on_runtime_upgrade old).1 ≡ some 8)
upgrade_moves_example = upgrade_moves old bsc 6 (omega arith) (refl, tt)
