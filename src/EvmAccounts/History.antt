-- ===== src/EvmAccounts/History.antt =====
-- The mapping of modules/evm-accounts/src/lib.rs under any calls and deaths of accounts.
use blockchain_protocol_v.Common.{
  ℕ, none, some, List, [], ◌∷◌, nat_eq, list_eq, ◌≡◌, arith, ◌∙◌, sym, ap, if◌then◌else◌, ◌==◌,
}
use blockchain_protocol_v.Common.Inverse.{insert-Inverse}
use blockchain_protocol_v.Common.Storage.{lookup, lookup-remove, lookup-insert_self}
use blockchain_protocol_v.Common.Errors.{Result, DispatchError, ok, err}
use blockchain_protocol_v.EvmAccounts.Mapping.{
  EvmAddress, Config, State, on_killed_account, into_account_id, padded,
}
use blockchain_protocol_v.EvmAccounts.Calls.{claim_account, recovered}
use blockchain_protocol_v.EvmAccounts.Linking.{
  Synced, refused, linked, finish, finish_maps, claim_account-cases, on_killed_account-Synced,
}

-- A call by an origin, or an account that the system removes.
pub data Op (Origin Signature : Type 0) : Type 0 where
  claims_account : Origin → EvmAddress → Signature → Op Origin Signature
  dies : ℕ → Op Origin Signature

module _ {Origin Sys Signature : Type 0} (T : Config Origin Sys Signature) where
  unfoldable pub step : State Sys → Op Origin Signature → State Sys
  step s (claims_account origin address sig) = (claim_account T origin address sig s).1
  step s (dies who) = on_killed_account who s

  unfoldable pub run : State Sys → List (Op Origin Signature) → State Sys
  run s [] = s
  run s (op ∷ ops) = run (step s op) ops

  step-Synced : (s : State Sys) (op : Op Origin Signature) → Synced s → Synced (step s op)
  unfolding step
  step-Synced s (dies who) v = on_killed_account-Synced who s v
  step-Synced s (claims_account origin address sig) v =
      elim (claim_account-cases T origin address sig s v) [
        | refused x h ↦ rw (h, step) v
        | linked who signer free l h ↦
            let maps = finish_maps T who address l.nonce l.before l.free.new_account in
            rw (h, step)
              (rw (maps.0, maps.1)
                (insert-Inverse address who l.before.accounts l.before.evm_addresses l.free.synced
                  l.free.new_address l.free.new_account))
      ]

  -- Any calls and any deaths of accounts keep the two maps inverse to each other: an address is
  -- mapped to an account exactly when the account is mapped to the address.
  pub run-Inverse :
      (s : State Sys) (ops : List (Op Origin Signature)) → Synced s → Synced (run s ops)
  unfolding run
  run-Inverse s [] v = v
  run-Inverse s (op ∷ ops) v = run-Inverse (step s op) ops (step-Synced s op v)

  -- What a claim that succeeded shows of the states before and after.
  pub record Claims (origin : Origin) (address : EvmAddress) (sig : Signature) (s s' : State Sys)
      : Type 0 where
    pub who : ℕ
    pub signer : T.origins.signer origin ≡ some who
    pub signed : recovered T who sig ≡ some address
    pub new_account : lookup who s.evm_addresses ≡ none
    pub new_address : lookup address s.accounts ≡ none
    pub resolves : into_account_id T address s' ≡ who
    pub mapped : lookup who s'.evm_addresses ≡ some address

  -- A claim that succeeds is by a signed origin whose signature recovers to the address, neither of
  -- which was mapped; after it the address resolves to the account and the account to the address.
  -- The maps are synced before.
  pub claim_account_sound :
      (origin : Origin) (address : EvmAddress) (sig : Signature) (s : State Sys) {s' : State Sys}
      → Synced s
      → claim_account T origin address sig s ≡ (ok tt, s')
      → Claims origin address sig s s'
  unfolding into_account_id
  claim_account_sound origin address sig s {s'} v h =
      elim (claim_account-cases T origin address sig s v) [
        | refused x r ↦ cc
        | linked who signer free l r ↦
            let maps = finish_maps T who address l.nonce l.before l.free.new_account in
            let end : finish T who address l.nonce l.before ≡ s' =
              ap (λ (p : Result (Unit {0}) × State Sys). p.1) (sym r ∙ h) in
            record {
              who = who;
              signer = signer;
              signed = l.signed;
              new_account = free.new_account;
              new_address = free.new_address;
              resolves =
                  ground (arith, maps.0, end, lookup-insert_self address who l.before.accounts);
              mapped =
                  ground
                    (arith, maps.1, end, lookup-insert_self who address l.before.evm_addresses);
            }
      ]

  -- A claim that fails changes nothing, also when it fails after the merge of the accounts.
  pub claim_account_failed :
      (origin : Origin) (address : EvmAddress) (sig : Signature) (s : State Sys) {x : DispatchError}
      {s' : State Sys}
      → Synced s
      → claim_account T origin address sig s ≡ (err x, s')
      → s' ≡ s
  claim_account_failed origin address sig s v h =
      elim (claim_account-cases T origin address sig s v) [
        | refused x r ↦ ap (λ (p : Result (Unit {0}) × State Sys). p.1) (sym h ∙ r)
        | linked who signer free l r ↦ cc
      ]

  -- When a mapped account dies, its address resolves to the account made of its own bytes again, and
  -- other addresses resolve as before, and the account has no address.
  pub death_releases :
      (who : ℕ) (address other : EvmAddress) (s : State Sys)
      → lookup who s.evm_addresses ≡ some address
      → let s' = on_killed_account who s in
        (into_account_id T other s'
          ≡ (if other == address then padded T other else into_account_id T other s))
        × (lookup who s'.evm_addresses ≡ none)
  unfolding into_account_id on_killed_account
  death_releases who address other s h = (
    ground (arith, lookup-remove other address s.accounts),
    ground (arith, lookup-remove who who s.evm_addresses),
  )
