-- ===== src/Claims/Claiming.antt =====
-- Claiming and burning in modules/claims/src/lib.rs.
use blockchain_protocol_v.Common.{
  [], ◌∷◌, u64_mod, list_beq_iff, ℕ, ◌+◌, ◌-◌, ◌≡◌, ◌↔◌, refl, true, false, Option, none, some,
  pair_eq, nat_eq, list_eq, arith, if◌then◌else◌, ltb,
}
use blockchain_protocol_v.Common.Errors.{Result, ok, err}
use blockchain_protocol_v.Common.Storage.{insert}
use blockchain_protocol_v.Claims.Types.{
  BridgeNetworks, EthereumAddress, EthereumTxHash, Claim, Config, State, network_eq, fees_of,
  claim_of,
}
use blockchain_protocol_v.Claims.Internal.{do_claim, do_burn, recovered}
use blockchain_protocol_v.Claims.Calls.{
  ValidTransaction, valid, do_validate, validate_unsigned, claim_elastic,
}

module _ {Origin Ledger Signature : Type 0} (T : Config Origin Ledger Signature) where
  -- A claim that succeeds was minted to the address that signed the claimer and the transaction,
  -- and was not claimed before. It pays the minted amount to the claimer, marks the claim, and
  -- changes nothing else.
  pub do_claim_sound :
      (network : BridgeNetworks) (dest : ℕ) (tx : EthereumTxHash) (sig : Signature)
      (s : State Ledger) {signer : EthereumAddress} {amount : ℕ} {s' : State Ledger}
      → do_claim T network dest tx sig s ≡ (ok (signer, amount), s')
      → (claim_of network tx s ≡ some (signer, amount, false))
        × (recovered T dest tx sig ≡ some signer)
        × (s' ≡ record s {
          ledger = T.currency.deposit_creating dest amount s.ledger;
          elastic_claims = insert (network, tx) (signer, amount, true) s.elastic_claims;
        })
  unfolding do_claim
  do_claim_sound network dest tx sig s {signer} {amount} {s'} h =
      go (claim_of network tx s) (recovered T dest tx sig) refl refl
    where
      go :
          (o : Option Claim) (r : Option EthereumAddress)
          → claim_of network tx s ≡ o
          → recovered T dest tx sig ≡ r
          → (claim_of network tx s ≡ some (signer, amount, false))
            × (recovered T dest tx sig ≡ some signer)
            × (s' ≡ record s {
              ledger = T.currency.deposit_creating dest amount s.ledger;
              elastic_claims = insert (network, tx) (signer, amount, true) s.elastic_claims;
            })
      go none r e f = ground arith
      go (some (a, n, c)) none e f = ground arith
      go (some (a, n, c)) (some k) e f = ground (arith, list_beq_iff a k)

  -- The pool admits an unsigned claim exactly when executing it in the same state succeeds.
  pub validate_agrees :
      (network : BridgeNetworks) (dest : ℕ) (tx : EthereumTxHash) (sig : Signature)
      (s : State Ledger)
      → ((v : ValidTransaction) × (validate_unsigned T (claim_elastic network dest tx sig) s
            ≡ valid v))
        ↔ ((r : EthereumAddress × ℕ) × ((do_claim T network dest tx sig s).0 ≡ ok r))
  unfolding do_claim validate_unsigned do_validate
  validate_agrees network dest tx sig s =
      go (claim_of network tx s) (recovered T dest tx sig) refl refl
    where
      go :
          (o : Option Claim) (r : Option EthereumAddress)
          → claim_of network tx s ≡ o
          → recovered T dest tx sig ≡ r
          → ((v : ValidTransaction) × (validate_unsigned T (claim_elastic network dest tx sig) s
                ≡ valid v))
            ↔ ((r : EthereumAddress × ℕ) × ((do_claim T network dest tx sig s).0 ≡ ok r))
      go none none e f = (λ v. ground arith, λ v. ground arith)
      go none (some k) e f = (λ v. ground arith, λ v. ground arith)
      go (some (a, n, c)) none e f = (λ v. ground arith, λ v. ground arith)
      go (some (a, n, true)) (some k) e f = (λ v. ground arith, λ v. ground arith)
      go (some (a, n, false)) (some k) e f = (
        λ v. ((k, n), ground arith),
        λ r. (
          record {
            priority = 100;
            requires = [];
            provides = T.encode_tag k ∷ [];
            longevity = u64_mod - 1;
            propagate = true;
          },
          ground arith,
        ),
      )

  -- A burn that succeeds withdraws the whole amount from the account and reports it without the
  -- burn fee; of the storage it changes only the ledger.
  pub do_burn_sound :
      (who : ℕ) (network : BridgeNetworks) (amount : ℕ) (s : State Ledger) {burned : ℕ}
      {s' : State Ledger}
      → do_burn T who network amount s ≡ (ok burned, s')
      → (burned + (fees_of network s).1 ≡ amount)
        × ((l : Ledger) × (T.currency.withdraw who amount s.ledger ≡ ok l)
            × (s' ≡ record s {
              ledger =
                  if ltb 0 (fees_of network s).1
                  then T.currency.deposit_creating T.account_id (fees_of network s).1 l
                  else l;
            }))
  unfolding do_burn
  do_burn_sound who network amount s {burned} {s'} h =
      go (T.currency.withdraw who amount s.ledger) refl
    where
      go :
          (r : Result Ledger)
          → T.currency.withdraw who amount s.ledger ≡ r
          → (burned + (fees_of network s).1 ≡ amount)
            × ((l : Ledger) × (T.currency.withdraw who amount s.ledger ≡ ok l)
                × (s' ≡ record s {
                  ledger =
                      if ltb 0 (fees_of network s).1
                      then T.currency.deposit_creating T.account_id (fees_of network s).1 l
                      else l;
                }))
      go (err x) e = absurd (ground arith)
      go (ok l) e = (ground arith, (l, e, ground arith))
