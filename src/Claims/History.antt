-- ===== src/Claims/History.antt =====
-- What any history of calls of modules/claims/src/lib.rs keeps.
use blockchain_protocol_v.Claims.Claiming.{do_claim_sound}
use blockchain_protocol_v.Common.{
  ℕ, ◌≡◌, Bool, true, false, Option, some, pair_eq, nat_eq, arith, sym, ap, List, [], ◌∷◌, ◌==◌,
  pair_beq_iff, inl, inr, Bool-cases, ◌∙◌, ◌||◌,
}
use blockchain_protocol_v.Common.Errors.{DispatchError, Result, ok, err, already_claimed}
use blockchain_protocol_v.Common.Errors
use blockchain_protocol_v.Common.Storage.{
  lookup, lookup-insert, lookup-insert_fresh, lookup-insert_self,
}
use blockchain_protocol_v.Claims.Types.{
  BridgeNetworks, EthereumAddress, EthereumTxHash, Claim, Config, State, network_eq, claim_of,
}
use blockchain_protocol_v.Claims.Internal.{do_claim}
use blockchain_protocol_v.Claims.Effects.{Effect, keeps, sets_limit, mints, claims, dispatch-Effect}
use blockchain_protocol_v.Claims.Calls.{Call, dispatch}

-- A claim stays, to the same address and of the same amount, and never becomes unclaimed.
abbrev pub Stays : Claim → Option Claim → Type 0
Stays (who, amount, claimed) o = (later : Bool) × (o ≡ some (who, amount, later || claimed))

Effect-Stays :
    {Ledger : Type 0} {which : Option BridgeNetworks} {s s' : State Ledger}
    (network : BridgeNetworks) (tx : EthereumTxHash) (claim : Claim)
    → claim_of network tx s ≡ some claim
    → Effect which s s'
    → Stays claim (claim_of network tx s')
Effect-Stays network tx (who, amount, claimed) h (keeps c l) = (false, rw c h)
Effect-Stays network tx (who, amount, claimed) h (sets_limit n limit w c l) = (false, rw c h)
Effect-Stays {s = s} network tx (who, amount, claimed) h (mints n t w a sent fresh le c l) =
    (false, rw c (lookup-insert_fresh (network, tx) (n, t) (w, a, sent) s.elastic_claims h fresh))
Effect-Stays {s = s} network tx (who, amount, claimed) h (claims n t w a old c l) =
    let key : BridgeNetworks × EthereumTxHash = (network, tx) in
    let mark : BridgeNetworks × EthereumTxHash = (n, t) in
    elim (Bool-cases (key == mark)) [
      | inl same ↦
          let equal = (pair_beq_iff key mark).0 same in
          let kept : ◌≡◌ {A = Option Claim} (some (who, amount, claimed)) (some (w, a, false)) =
            sym h ∙ (ap (λ k. lookup k s.elastic_claims) equal ∙ old) in
          (
            true,
            rw c (rw (lookup-insert key mark (w, a, true) s.elastic_claims, same) (ground arith)),
          )
      | inr other ↦
          (false, rw c (rw (lookup-insert key mark (w, a, true) s.elastic_claims, other) h))
    ]

module _ {Origin Ledger Signature : Type 0} (T : Config Origin Ledger Signature) where
  unfoldable pub run : State Ledger → List (Origin × Call Signature) → State Ledger
  run s [] = s
  run s ((origin, call) ∷ rest) = run (dispatch T origin call s).1 rest

  -- A claim that was minted stays under every later history of calls: to the same address, of the
  -- same amount, and claimed if it was.
  pub run-Stays :
      (network : BridgeNetworks) (tx : EthereumTxHash) (claim : Claim) (s : State Ledger)
      (calls : List (Origin × Call Signature))
      → claim_of network tx s ≡ some claim
      → Stays claim (claim_of network tx (run s calls))
  unfolding run
  run-Stays network tx (who, amount, claimed) s [] h = (false, h)
  run-Stays network tx (who, amount, claimed) s ((origin, call) ∷ rest) h =
      let first =
        Effect-Stays network tx (who, amount, claimed) h (dispatch-Effect T origin call s) in
      let later =
        run-Stays network tx (who, amount, first.0 || claimed) (dispatch T origin call s).1 rest
          first.1 in
      (later.0 || first.0, ground (arith, later.1))

  -- No claim is paid twice: after a claim succeeded, whatever calls come in between, claiming the
  -- same transaction fails, for any account and any signature, and changes nothing.
  pub no_double_claim :
      (network : BridgeNetworks) (tx : EthereumTxHash) (dest again : ℕ) (sig sig' : Signature)
      (s : State Ledger) {r : EthereumAddress × ℕ} {s' : State Ledger}
      (calls : List (Origin × Call Signature))
      → do_claim T network dest tx sig s ≡ (ok r, s')
      → do_claim T network again tx sig' (run s' calls)
        ≡ (err (Errors.claims already_claimed), run s' calls)
  unfolding do_claim
  no_double_claim network tx dest again sig sig' s {r} {s'} calls h =
      let first = do_claim_sound T network dest tx sig s h in
      let marked : claim_of network tx s' ≡ some (r.0, r.1, true) =
        rw (first.2) (lookup-insert_self (network, tx) (r.0, r.1, true) s.elastic_claims) in
      let later = run-Stays network tx (r.0, r.1, true) s' calls marked in ground (arith, later.1)
