-- ===== src/Claims/Effects.antt =====
-- An abstract bridge, and that every call of modules/claims/src/lib.rs is one of its moves.
use blockchain_protocol_v.Claims.Claiming.{do_claim_sound, do_burn_sound}
use blockchain_protocol_v.Common.{
  ℕ, ◌-◌, ◌≤◌, ◌≡◌, refl, Bool, true, false, Option, none, some, pair_eq, nat_eq, arith, Bool-cases,
  inr, inl,
}
use blockchain_protocol_v.Common.Errors.{Result, ok, err}
use blockchain_protocol_v.Common.Storage.{insert}
use blockchain_protocol_v.Claims.Types.{
  BridgeNetworks, EthereumAddress, EthereumTxHash, Config, State, network_eq, limit_of, claim_of,
  zero_address,
}
use blockchain_protocol_v.Claims.Internal.{do_mint_claim, do_mint_and_send_claim, do_claim, do_burn}
use blockchain_protocol_v.Claims.Minting.{do_mint_claim-Mints, do_mint_and_send_claim-Mints}
use blockchain_protocol_v.Claims.Calls.{
  mint_claim_elastic, execute, dispatch, mint_and_send_claim_elastic, claim_elastic, burn_elastic,
  Call, set_bridge_account_elastic, set_claim_limit_elastic, set_bridge_fee_elastic,
}

-- What a call does, of which `which` is the network whose limit it may set, to the claims and the limits: nothing; a limit is set; a claim is minted for a
-- transaction that had none, within the limit, which falls by the amount; or a claim that was not
-- claimed is marked.
pub data Effect {Ledger : Type 0} (which : Option BridgeNetworks) (s s' : State Ledger)
    : Type 0 where
  keeps :
      s'.elastic_claims ≡ s.elastic_claims
      → s'.elastic_claim_limits ≡ s.elastic_claim_limits
      → Effect which s s'
  sets_limit :
      (network : BridgeNetworks) (limit : ℕ)
      → which ≡ some network
      → s'.elastic_claims ≡ s.elastic_claims
      → s'.elastic_claim_limits ≡ insert network limit s.elastic_claim_limits
      → Effect which s s'
  mints :
      (network : BridgeNetworks) (tx : EthereumTxHash) (who : EthereumAddress) (amount : ℕ)
      (sent : Bool)
      → claim_of network tx s ≡ none
      → amount ≤ limit_of network s
      → s'.elastic_claims ≡ insert (network, tx) (who, amount, sent) s.elastic_claims
      → s'.elastic_claim_limits
        ≡ insert network (limit_of network s - amount) s.elastic_claim_limits
      → Effect which s s'
  claims :
      (network : BridgeNetworks) (tx : EthereumTxHash) (who : EthereumAddress) (amount : ℕ)
      → claim_of network tx s ≡ some (who, amount, false)
      → s'.elastic_claims ≡ insert (network, tx) (who, amount, true) s.elastic_claims
      → s'.elastic_claim_limits ≡ s.elastic_claim_limits
      → Effect which s s'

module _ {Origin Ledger Signature : Type 0} (T : Config Origin Ledger Signature) where
  mint-Effect :
      (origin : Origin) (network : BridgeNetworks) (tx : EthereumTxHash) (who : EthereumAddress)
      (value : ℕ) (s : State Ledger)
      → Effect none s (dispatch T origin (mint_claim_elastic network tx who value) s).1
  unfolding dispatch execute
  mint-Effect origin network tx who value s = signed (T.origins.signer origin) refl
    where
      Goal : Type 0
      Goal = Effect none s (dispatch T origin (mint_claim_elastic network tx who value) s).1

      minted :
          (from : ℕ) (r : Result ℕ) (t : State Ledger)
          → T.origins.signer origin ≡ some from
          → do_mint_claim T from network tx who value s ≡ (r, t)
          → Goal
      minted from (err x) t e h = keeps (ground arith) (ground arith)
      minted from (ok amount) t e h =
          let m = do_mint_claim-Mints T from network tx who value s h in
          mints network tx who amount false m.0.fresh (ground arith) (ground arith) (ground arith)

      signed : (o : Option ℕ) → T.origins.signer origin ≡ o → Goal
      signed none e = keeps (ground arith) (ground arith)
      signed (some from) e = minted from _ _ e refl

  send-Effect :
      (origin : Origin) (network : BridgeNetworks) (tx : EthereumTxHash) (dest value : ℕ)
      (s : State Ledger)
      → Effect none s (dispatch T origin (mint_and_send_claim_elastic network tx dest value) s).1
  unfolding dispatch execute
  send-Effect origin network tx dest value s = signed (T.origins.signer origin) refl
    where
      Goal : Type 0
      Goal =
          Effect none s (dispatch T origin (mint_and_send_claim_elastic network tx dest value) s).1

      minted :
          (from : ℕ) (r : Result ℕ) (t : State Ledger)
          → T.origins.signer origin ≡ some from
          → do_mint_and_send_claim T from network tx dest value s ≡ (r, t)
          → Goal
      minted from (err x) t e h = keeps (ground arith) (ground arith)
      minted from (ok amount) t e h =
          let m = do_mint_and_send_claim-Mints T from network tx dest value s h in
          mints network tx zero_address amount true m.0.fresh (ground arith) (ground arith)
            (ground arith)

      signed : (o : Option ℕ) → T.origins.signer origin ≡ o → Goal
      signed none e = keeps (ground arith) (ground arith)
      signed (some from) e = minted from _ _ e refl

  claim-Effect :
      (origin : Origin) (network : BridgeNetworks) (dest : ℕ) (tx : EthereumTxHash)
      (sig : Signature) (s : State Ledger)
      → Effect none s (dispatch T origin (claim_elastic network dest tx sig) s).1
  unfolding dispatch execute
  claim-Effect origin network dest tx sig s = elim (Bool-cases (T.origins.is_none origin)) [
    | inr refused ↦ keeps (ground arith) (ground arith)
    | inl unsigned ↦ claimed unsigned _ _ refl
  ]
    where
      Goal : Type 0
      Goal = Effect none s (dispatch T origin (claim_elastic network dest tx sig) s).1

      claimed :
          T.origins.is_none origin ≡ true
          → (r : Result (EthereumAddress × ℕ)) (t : State Ledger)
          → do_claim T network dest tx sig s ≡ (r, t)
          → Goal
      claimed unsigned (err x) t h = keeps (ground arith) (ground arith)
      claimed unsigned (ok (signer, amount)) t h =
          let m = do_claim_sound T network dest tx sig s h in
          claims network tx signer amount m.0 (ground arith) (ground arith)

  burn-Effect :
      (origin : Origin) (network : BridgeNetworks) (dest : EthereumAddress) (amount : ℕ)
      (s : State Ledger)
      → Effect none s (dispatch T origin (burn_elastic network dest amount) s).1
  unfolding dispatch execute
  burn-Effect origin network dest amount s = signed (T.origins.signer origin) refl
    where
      Goal : Type 0
      Goal = Effect none s (dispatch T origin (burn_elastic network dest amount) s).1

      burned :
          (who : ℕ) (r : Result ℕ) (t : State Ledger)
          → T.origins.signer origin ≡ some who
          → do_burn T who network amount s ≡ (r, t)
          → Goal
      burned who (err x) t e h = keeps (ground arith) (ground arith)
      burned who (ok n) t e h =
          let m = do_burn_sound T who network amount s h in keeps (ground arith) (ground arith)

      signed : (o : Option ℕ) → T.origins.signer origin ≡ o → Goal
      signed none e = keeps (ground arith) (ground arith)
      signed (some who) e = burned who _ _ e refl

  -- The network whose limit a call sets.
  abbrev pub limit_call : Call Signature → Option BridgeNetworks
  limit_call (set_claim_limit_elastic network limit) = some network
  limit_call _ = none

  -- Every call, by any origin, whether it succeeds or fails, is a move of the abstract bridge.
  pub dispatch-Effect :
      (origin : Origin) (call : Call Signature) (s : State Ledger)
      → Effect (limit_call call) s (dispatch T origin call s).1
  unfolding dispatch execute
  dispatch-Effect origin (set_bridge_account_elastic network to) s =
      elim (Bool-cases (T.origins.is_root origin)) [
        | inl root ↦ keeps (ground arith) (ground arith)
        | inr refused ↦ keeps (ground arith) (ground arith)
      ]
  dispatch-Effect origin (set_claim_limit_elastic network limit) s =
      elim (Bool-cases (T.origins.is_root origin)) [
        | inl root ↦ sets_limit network limit refl (ground arith) (ground arith)
        | inr refused ↦ keeps (ground arith) (ground arith)
      ]
  dispatch-Effect origin (set_bridge_fee_elastic network mint_fee burn_fee) s =
      elim (Bool-cases (T.origins.is_root origin)) [
        | inl root ↦ keeps (ground arith) (ground arith)
        | inr refused ↦ keeps (ground arith) (ground arith)
      ]
  dispatch-Effect origin (mint_claim_elastic network tx who value) s =
      mint-Effect origin network tx who value s
  dispatch-Effect origin (claim_elastic network dest tx sig) s =
      claim-Effect origin network dest tx sig s
  dispatch-Effect origin (burn_elastic network dest amount) s =
      burn-Effect origin network dest amount s
  dispatch-Effect origin (mint_and_send_claim_elastic network tx who value) s =
      send-Effect origin network tx who value s
