-- ===== src/EvmAccounts/Tests.antt =====
-- The theorems of modules/evm-accounts/src/lib.rs at small inputs.
use blockchain_protocol_v.Ethereum.Message.{eth_recover}
use blockchain_protocol_v.EvmAccounts.Calls.{claim_account, link, absorb}
use blockchain_protocol_v.Common.{
  ℕ, refl, Bool, true, false, Option, some, none, [], ◌∷◌, List, arith, nat_eq, list_eq, nat_beq,
  replicate, if◌then◌else◌,
}
use blockchain_protocol_v.Common.Errors.{ok}
use blockchain_protocol_v.Frame.{Origins}
use blockchain_protocol_v.EvmAccounts.Mapping.{
  Config, State, into_account_id, on_killed_account, on_killed_accounts,
}
use blockchain_protocol_v.EvmAccounts.History.{
  Op, run, run-Inverse, Claims, claim_account_sound, claims_account, dies,
}
use blockchain_protocol_v.EvmAccounts.Linking.{Synced}

abbrev is_root : Option ℕ → Bool
is_root none = true
is_root (some who) = false

-- No signer is root.
abbrev origins : Origins (Option ℕ)
origins = record { is_root = is_root; signer = λ origin. origin; is_none = λ origin. false }

-- The system is the nonce of account 0, which alone exists. Every address is the account 0's.
abbrev chain : Config (Option ℕ) ℕ ℕ
chain = record {
  origins = origins;
  crypto = record {
    keccak_256 = λ text. text;
    secp256k1_ecdsa_recover = λ sig text. some (replicate 32 sig);
  };
  encode_account = λ who. who ∷ [];
  account_id_of_bytes = λ bytes. 0;
  account_exists = λ who nonce. nat_beq who 0;
  account_nonce = λ who nonce. if nat_beq who 0 then nonce else 0;
  set_nonce = λ who value nonce. nonce;
  merge_account = λ source dest nonce. ok ([], nonce);
  killed = λ who nonce. (who ∷ [], nonce);
}

abbrev address : List ℕ
address = replicate 20 9

abbrev start : State ℕ
start = record { accounts = []; evm_addresses = []; system = 5; events = [] }

start_Synced : Synced start
start_Synced a b = (λ h. ground arith, λ h. ground arith)

abbrev history : List (Op (Option ℕ) ℕ)
history =
    claims_account (some 3) address 9
    ∷ claims_account (some 4) address 9
    ∷ dies 3
    ∷ claims_account (some 4) address 9
    ∷ []

run-Inverse_example : Synced (run chain start history)
run-Inverse_example = run-Inverse chain start history start_Synced

abbrev claimed : State ℕ
claimed = (claim_account chain (some 3) address 9 start).1

claim_account_sound_example : Claims chain (some 3) address 9 start claimed
unfolding claim_account link absorb eth_recover into_account_id on_killed_accounts on_killed_account
claim_account_sound_example =
    claim_account_sound chain (some 3) address 9 start {s' = claimed} start_Synced refl

abbrev mapped : State ℕ
mapped = record {
  accounts = (address, 3) ∷ [];
  evm_addresses = (3, address) ∷ [];
  system = 5;
  events = [];
}
