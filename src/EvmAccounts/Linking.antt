-- ===== src/EvmAccounts/Linking.antt =====
-- What `claim_account` of modules/evm-accounts/src/lib.rs does, case by case.
use blockchain_protocol_v.Common.{
  ◌∙◌, ℕ, Option, none, some, List, [], ◌∷◌, nat_eq, list_eq, ◌≡◌, refl, arith, true, false, Bool,
  ◌⊎◌, inl, Bool-cases, ◌==◌, inr, ap, sym, list_beq_iff,
}
use mathlib.Core.Path.{subst}
use blockchain_protocol_v.Common.Inverse.{Inverse, remove-Inverse}
use blockchain_protocol_v.Common.Storage.{lookup, lookup-remove, insert}
use blockchain_protocol_v.Common.Errors.{
  Result, ok, err, DispatchError, evm_accounts, bad_signature, invalid_signature, bad_origin,
  account_id_has_mapped, eth_address_has_mapped,
}
use blockchain_protocol_v.EvmAccounts.Mapping.{
  EvmAddress, Config, State, on_killed_account, on_killed_accounts, into_account_id,
}
use blockchain_protocol_v.EvmAccounts.Calls.{
  recovered, absorb, put_mapping, drop_old, raise_nonce, link, claim_account,
}

-- An address is an account's exactly when the account is the address's.
abbrev pub Synced : {Sys : Type 0} → State Sys → Type 0
Synced s = Inverse s.accounts s.evm_addresses

-- Neither the account nor the address is mapped, in synced maps.
pub record Free {Sys : Type 0} (who : ℕ) (address : EvmAddress) (s : State Sys) : Type 0 where
  pub synced : Synced s
  pub new_account : lookup who s.evm_addresses ≡ none
  pub new_address : lookup address s.accounts ≡ none

module _ {Sys : Type 0} where
  pub on_killed_account-Synced :
      (dead : ℕ) (s : State Sys) → Synced s → Synced (on_killed_account dead s)
  unfolding on_killed_account
  on_killed_account-Synced dead s v = go (lookup dead s.evm_addresses) refl
    where
      go :
          (o : Option EvmAddress)
          → lookup dead s.evm_addresses ≡ o
          → Synced (on_killed_account dead s)
      go none e = rw (e, on_killed_account) v
      go (some a) e =
          rw (e, on_killed_account) (remove-Inverse a dead s.accounts s.evm_addresses v e)

  on_killed_account-Free :
      (dead who : ℕ) (address : EvmAddress) (s : State Sys)
      → Free who address s
      → Free who address (on_killed_account dead s)
  unfolding on_killed_account
  on_killed_account-Free dead who address s f = record {
    synced = on_killed_account-Synced dead s f.synced;
    new_account = account (lookup dead s.evm_addresses) refl;
    new_address = mapped (lookup dead s.evm_addresses) refl;
  }
    where
      account :
          (o : Option EvmAddress)
          → lookup dead s.evm_addresses ≡ o
          → lookup who (on_killed_account dead s).evm_addresses ≡ none
      account none e = ground (arith, f.new_account)
      account (some a) e = ground (arith, f.new_account, lookup-remove who dead s.evm_addresses)

      mapped :
          (o : Option EvmAddress)
          → lookup dead s.evm_addresses ≡ o
          → lookup address (on_killed_account dead s).accounts ≡ none
      mapped none e = ground (arith, f.new_address)
      mapped (some a) e = ground (arith, f.new_address, lookup-remove address a s.accounts)

  on_killed_accounts-Free :
      (dead : List ℕ) (who : ℕ) (address : EvmAddress) (s : State Sys)
      → Free who address s
      → Free who address (on_killed_accounts dead s)
  unfolding on_killed_accounts
  on_killed_accounts-Free [] who address s f = f
  on_killed_accounts-Free (d ∷ rest) who address s f =
      on_killed_accounts-Free rest who address (on_killed_account d s)
        (on_killed_account-Free d who address s f)

  with_system :
      (who : ℕ) (address : EvmAddress) (s : State Sys) (system : Sys)
      → Free who address s
      → Free who address (record s { system = system })
  with_system who address s system f = record {
    synced = f.synced;
    new_account = f.new_account;
    new_address = f.new_address;
  }

module _ {Origin Sys Signature : Type 0} (T : Config Origin Sys Signature) where
  absorb-Free :
      (account_id who owner : ℕ) (address : EvmAddress) (s : State Sys)
      → Free owner address s
      → Free owner address (absorb T account_id who s).1
  unfolding absorb
  absorb-Free account_id who owner address s f =
      go (T.account_exists account_id s.system) (T.merge_account account_id who s.system) refl refl
    where
      go :
          (b : Bool) (r : Result (List ℕ × Sys))
          → T.account_exists account_id s.system ≡ b
          → T.merge_account account_id who s.system ≡ r
          → Free owner address (absorb T account_id who s).1
      go false r e h = rw (e, absorb) f
      go true (err x) e h =
          let same : s ≡ (absorb T account_id who s).1 = ground arith in
          subst (Free owner address) same f
      go true (ok (dead, system)) e h =
          let merged : State Sys = on_killed_accounts dead (record s { system = system }) in
          let kill : List ℕ × Sys = T.killed account_id merged.system in
          let ended : State Sys = on_killed_accounts kill.0 (record merged { system = kill.1 }) in
          let same : ended ≡ (absorb T account_id who s).1 = ground arith in
          subst (Free owner address) same (
            on_killed_accounts-Free kill.0 owner address (record merged { system = kill.1 })
              (with_system owner address merged kill.1 (
                on_killed_accounts-Free dead owner address (record s { system = system })
                  (with_system owner address s system f))))

  -- The last writes.
  unfoldable pub finish : ℕ → EvmAddress → ℕ → State Sys → State Sys
  finish who address nonce s =
      put_mapping T who address (drop_old T who (raise_nonce T who nonce s))

  pub finish_maps :
      (who : ℕ) (address : EvmAddress) (nonce : ℕ) (s : State Sys)
      → lookup who s.evm_addresses ≡ none
      → ((finish who address nonce s).accounts ≡ insert address who s.accounts)
        × ((finish who address nonce s).evm_addresses ≡ insert who address s.evm_addresses)
  unfolding finish
  finish_maps who address nonce s h = (ground arith, ground arith)

  -- A link that succeeds: the signature is for the address, and the last writes are made in a state
  -- in which the account and the address are still free.
  pub record Linked (who : ℕ) (address : EvmAddress) (sig : Signature) (s : State Sys)
      : Type 0 where
    pub signed : recovered T who sig ≡ some address
    pub nonce : ℕ
    pub before : State Sys
    pub free : Free who address before
    pub result : link T who address sig s ≡ (ok tt, finish who address nonce before)

  link-cases :
      (who : ℕ) (address : EvmAddress) (sig : Signature) (s : State Sys)
      → Free who address s
      → ((x : DispatchError) × ((link T who address sig s).0 ≡ err x)) ⊎ Linked who address sig s
  unfolding link finish
  link-cases who address sig s f =
      go (recovered T who sig) (absorb T (into_account_id T address s) who s) refl refl
    where
      go :
          (o : Option EvmAddress) (r : Result ℕ × State Sys)
          → recovered T who sig ≡ o
          → absorb T (into_account_id T address s) who s ≡ r
          → ((x : DispatchError) × ((link T who address sig s).0 ≡ err x))
            ⊎ Linked who address sig s
      go none r e h = inl (evm_accounts bad_signature, ground arith)
      go (some a) (r, t) e h = elim (Bool-cases (address == a)) [
        | inr other ↦ inl (evm_accounts invalid_signature, ground arith)
        | inl same ↦ ended r h same
      ]
        where
          ended :
              (q : Result ℕ)
              → absorb T (into_account_id T address s) who s ≡ (q, t)
              → (address == a) ≡ true
              → ((x : DispatchError) × ((link T who address sig s).0 ≡ err x))
                ⊎ Linked who address sig s
          ended (err x) g same = inl (x, ground arith)
          ended (ok n) g same = inr (record {
            signed = e ∙ ap some (sym ((list_beq_iff address a).0 same));
            nonce = n;
            before = t;
            free =
                subst (Free who address) (ap (λ (p : Result ℕ × State Sys). p.1) g)
                  (absorb-Free (into_account_id T address s) who who address s f);
            result = ground arith;
          })

  -- `claim_account` as the check of the origin, of the two maps, and the link.
  pub data ClaimOutcome (origin : Origin) (address : EvmAddress) (sig : Signature) (s : State Sys)
      : Type 0 where
    refused :
        (x : DispatchError)
        → claim_account T origin address sig s ≡ (err x, s)
        → ClaimOutcome origin address sig s
    linked :
        (who : ℕ)
        → T.origins.signer origin ≡ some who
        → Free who address s
        → (l : Linked who address sig s)
        → claim_account T origin address sig s ≡ (ok tt, finish who address l.nonce l.before)
        → ClaimOutcome origin address sig s

  pub claim_account-cases :
      (origin : Origin) (address : EvmAddress) (sig : Signature) (s : State Sys)
      → Synced s
      → ClaimOutcome origin address sig s
  unfolding claim_account
  claim_account-cases origin address sig s v =
      go (T.origins.signer origin) (lookup address s.accounts) refl refl
    where
      go :
          (o : Option ℕ) (m : Option ℕ)
          → T.origins.signer origin ≡ o
          → lookup address s.accounts ≡ m
          → ClaimOutcome origin address sig s
      go none m e f = refused bad_origin (ground arith)
      go (some who) m e f = held (lookup who s.evm_addresses) refl
        where
          held :
              (n : Option EvmAddress)
              → lookup who s.evm_addresses ≡ n
              → ClaimOutcome origin address sig s
          held (some old) g = refused (evm_accounts account_id_has_mapped) (ground arith)
          held none g = free m f g
            where
              free :
                  (m' : Option ℕ)
                  → lookup address s.accounts ≡ m'
                  → lookup who s.evm_addresses ≡ none
                  → ClaimOutcome origin address sig s
              free (some other) k g' = refused (evm_accounts eth_address_has_mapped) (ground arith)
              free none k g' =
                  let open_ : Free who address s = record {
                    synced = v;
                    new_account = g';
                    new_address = k;
                  } in
                  elim (link-cases who address sig s open_) [
                    | inl (x, h) ↦ refused x (ground arith)
                    | inr l ↦ linked who e open_ l (ground (arith, l.result))
                  ]
