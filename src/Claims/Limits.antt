-- ===== src/Claims/Limits.antt =====
-- The claim limits of modules/claims/src/lib.rs bound what is minted.
use blockchain_protocol_v.Common.{
  ℕ, ◌+◌, ◌-◌, ◌≡◌, refl, Bool, true, false, Option, none, some, pair_eq, nat_eq, arith, List, [],
  ◌∷◌, if◌then◌else◌, ◌≢◌, All, ◌∙◌, ap, sym,
}
use blockchain_protocol_v.Common.Storage.{lookup, insert, get-insert}
use blockchain_protocol_v.Claims.Types.{
  BridgeNetworks, EthereumAddress, EthereumTxHash, Config, State, network_eq, network_beq,
  network_beq_iff, limit_of,
}
use blockchain_protocol_v.Claims.Upgrade.{Elastic}
use blockchain_protocol_v.Claims.Effects.{
  Effect, keeps, sets_limit, mints, claims, dispatch-Effect, limit_call,
}
use blockchain_protocol_v.Claims.Calls.{Call, dispatch}
use blockchain_protocol_v.Claims.History.{run}

-- The sum of all claims for a network, claimed or not.
abbrev pub minted : BridgeNetworks → Elastic → ℕ
minted network [] = 0
minted network (((n, t), (who, amount, claimed)) ∷ rest) =
    (if network_beq network n then amount else 0) + minted network rest

minted_fresh :
    (k n : BridgeNetworks) (t : EthereumTxHash) (w : EthereumAddress) (a : ℕ) (c : Bool)
    (m : Elastic)
    → lookup (n, t) m ≡ none
    → minted k (insert (n, t) (w, a, c) m) ≡ minted k m + (if network_beq k n then a else 0)
minted_fresh k n t w a c [] h = omega arith
minted_fresh k n t w a c (((n', t'), (w', a', c')) ∷ rest) h =
    ground (arith, minted_fresh k n t w a c rest)

minted_marked :
    (k n : BridgeNetworks) (t : EthereumTxHash) (w : EthereumAddress) (a : ℕ) (c d : Bool)
    (m : Elastic)
    → lookup (n, t) m ≡ some (w, a, c)
    → minted k (insert (n, t) (w, a, d) m) ≡ minted k m
minted_marked k n t w a c d [] h = ground arith
minted_marked k n t w a c d (((n', t'), (w', a', c')) ∷ rest) h =
    ground (arith, minted_marked k n t w a c d rest, network_beq_iff n n')

-- What was minted for the network and what may still be minted.
abbrev pub allowance : {Ledger : Type 0} → BridgeNetworks → State Ledger → ℕ
allowance k s = minted k s.elastic_claims + limit_of k s

Effect-allowance :
    {Ledger : Type 0} {which : Option BridgeNetworks} {s s' : State Ledger} (k : BridgeNetworks)
    → which ≢ some k
    → Effect which s s'
    → allowance k s' ≡ allowance k s
Effect-allowance k other (keeps c l) = rw (c, l)
Effect-allowance {s = s} k other (sets_limit n limit w c l) =
    let ne : k ≢ n = λ e. other (w ∙ ap some (sym e)) in
    rw (c, l) (ground (arith, get-insert 0 k n limit s.elastic_claim_limits, network_beq_iff k n))
Effect-allowance {s = s} k other (mints n t w a sent fresh le c l) =
    rw (c, l)
      (ground (
        arith,
        minted_fresh k n t w a sent s.elastic_claims fresh,
        get-insert 0 k n (limit_of n s - a) s.elastic_claim_limits,
        network_beq_iff k n,
      ))
Effect-allowance {s = s} k other (claims n t w a old c l) =
    rw (c, l) (ground (arith, minted_marked k n t w a false true s.elastic_claims old))

module _ {Origin Ledger Signature : Type 0} (T : Config Origin Ledger Signature) where
  -- The call does not set the limit of the network.
  abbrev pub LeavesLimit : BridgeNetworks → Origin × Call Signature → Type 0
  LeavesLimit k (origin, call) = limit_call T call ≢ some k

  -- While nobody sets the limit of a network, what was minted for it and what may still be minted
  -- keep their sum under any calls: so no more than the limit is ever minted.
  pub run-allowance :
      (k : BridgeNetworks) (s : State Ledger) (calls : List (Origin × Call Signature))
      → All (LeavesLimit k) calls
      → allowance k (run T s calls) ≡ allowance k s
  unfolding run
  run-allowance k s [] h = refl
  run-allowance k s ((origin, call) ∷ rest) h =
      run-allowance k (dispatch T origin call s).1 rest h.1
      ∙ Effect-allowance k h.0 (dispatch-Effect T origin call s)
