-- ===== src/Staking/Views.antt =====
-- What the functions on sessions of frame/staking leave of the planned and the active era.
use blockchain_protocol_v.Common.{
  ℕ, zero, suc, ◌-◌, ◌≡◌, refl, Option, none, some, List, [], ◌∷◌, nat_eq, ◌++◌, ap, ◌∙◌, arith,
  map,
}
use blockchain_protocol_v.Common.Storage.{Map, lookup, get}
use blockchain_protocol_v.Staking.Eras.{ActiveEraInfo}
use blockchain_protocol_v.Staking.Exposures.{Exposures, stash_of}
use blockchain_protocol_v.Staking.Planning.{
  Chain, SessionConfig, store_exposures, store_prefs, store_stakers_info,
}
use blockchain_protocol_v.Staking.Sessions.{
  next_active, clear_each, clear_era_metadata, apply_each, apply_queue, apply_queues, apply_from,
  apply_unapplied_slashes, prune_sessions, bond_era, kept_eras, pruned_eras, start_era,
}
use blockchain_protocol_v.Staking.Slashing.{
  UnappliedSlash, Progress, slash_ledger, do_slash, slash_others, apply_slash,
}
use blockchain_protocol_v.Staking.Ledger.{StakingLedger}
use blockchain_protocol_v.Staking.Stakers.{update_ledger}
use blockchain_protocol_v.Staking.Types.{Config, State}

module _ {Accounts Voters : Type 0} where
  abbrev plan : State Accounts Voters → Option ℕ × ℕ
  plan s = (s.current_era, s.eras.history_depth)

  clear_each-plan : (eras : List ℕ) (s : State Accounts Voters) → plan (clear_each eras s) ≡ plan s
  clear_each-plan [] s = refl
  clear_each-plan (era ∷ eras) s = clear_each-plan eras (clear_era_metadata era s)

  store_prefs-plan :
      (era : ℕ) (stashes : List ℕ) (s : State Accounts Voters)
      → plan (store_prefs era stashes s) ≡ plan s
  store_prefs-plan era [] s = refl
  store_prefs-plan era (x ∷ stashes) s = store_prefs-plan era stashes _

module _ {Origin Accounts Voters : Type 0} (T : Config Origin Accounts Voters) where
  slash_ledger-plan :
      (stash controller amount era : ℕ) (l : StakingLedger) (p : Progress Accounts Voters)
      → plan (slash_ledger T stash controller amount era l p).state ≡ plan p.state
  unfolding slash_ledger update_ledger
  slash_ledger-plan stash controller amount era l p = ground arith

  do_slash-plan :
      (stash value era : ℕ) (p : Progress Accounts Voters)
      → plan (do_slash T stash value era p).state ≡ plan p.state
  unfolding do_slash
  do_slash-plan stash value era p = go (lookup stash p.state.bonded) refl
    where
      found :
          (controller : ℕ) (o : Option StakingLedger)
          → lookup controller p.state.ledger ≡ o
          → lookup stash p.state.bonded ≡ some controller
          → plan (do_slash T stash value era p).state ≡ plan p.state
      found controller none h f = rw (do_slash, f, h) refl
      found controller (some l) h f =
          rw (do_slash, f, h) (slash_ledger-plan stash controller value era l p)

      go :
          (o : Option ℕ)
          → lookup stash p.state.bonded ≡ o
          → plan (do_slash T stash value era p).state ≡ plan p.state
      go none h = rw (do_slash, h) refl
      go (some controller) h = found controller (lookup controller p.state.ledger) refl h

  slash_others-plan :
      (others : List (ℕ × ℕ)) (era : ℕ) (p : Progress Accounts Voters)
      → plan (slash_others T others era p).state ≡ plan p.state
  slash_others-plan [] era p = refl
  slash_others-plan ((nominator, value) ∷ others) era p =
      slash_others-plan others era (do_slash T nominator value era p)
      ∙ do_slash-plan nominator value era p

  apply_slash-plan :
      (u : UnappliedSlash) (era : ℕ) (s : State Accounts Voters)
      → plan (apply_slash T u era s) ≡ plan s
  unfolding apply_slash
  apply_slash-plan u era s =
      slash_others-plan u.others era _
      ∙ do_slash-plan u.validator u.own era
          (record { reward_payout = u.payout; slashed_imbalance = 0; state = s })

-- The planned era, the history that is kept, the first sessions of eras, and the active era.
abbrev pub View : Type 0
View = Option ℕ × ℕ × Map ℕ ℕ × Option ActiveEraInfo

abbrev pub view : {Accounts Voters : Type 0} → Chain Accounts Voters → View
view s =
    (s.staking.current_era, s.staking.eras.history_depth, s.eras_start_session_index, s.active_era)

-- The view of a chain of which the stakers' part is as good as another.
staking-view :
    {Accounts Voters : Type 0} (s : Chain Accounts Voters) (p : State Accounts Voters)
    → plan p ≡ plan s.staking
    → view (record s { staking = p }) ≡ view s
staking-view s p h =
    ap (λ (x : Option ℕ × ℕ). (x.0, x.1, s.eras_start_session_index, s.active_era)) h

store_exposures-view :
    {Accounts Voters : Type 0} (n era : ℕ) (exposures : Exposures) (s : Chain Accounts Voters)
    → view (store_exposures n era exposures s) ≡ view s
store_exposures-view n era [] s = refl
store_exposures-view n era (x ∷ exposures) s = store_exposures-view n era exposures _

module _ {Origin Accounts Voters : Type 0} (T : SessionConfig Origin Accounts Voters) where
  apply_each-plan :
      (era : ℕ) (queue : List UnappliedSlash) (s : State Accounts Voters)
      → plan (apply_each T era queue s) ≡ plan s
  apply_each-plan era [] s = refl
  apply_each-plan era (u ∷ queue) s =
      apply_each-plan era queue (apply_slash T.base u era s) ∙ apply_slash-plan T.base u era s

  apply_queues-view :
      (n era : ℕ) (s : Chain Accounts Voters) → view (apply_queues T n era s) ≡ view s
  apply_queues-view zero era s = refl
  apply_queues-view (suc n) era s =
      let queue = get [] era s.unapplied_slashes in
      apply_queues-view n (suc era) (apply_queue T era s)
      ∙ staking-view s (apply_each T era queue s.staking) (apply_each-plan era queue s.staking)

  apply_from-view :
      (k : ℕ) (o : Option ℕ) (s : Chain Accounts Voters) → view (apply_from T k o s) ≡ view s
  apply_from-view k none s = refl
  apply_from-view k (some e) s = apply_queues-view (k - e) e s

  prune_sessions-plan :
      (eras : List (ℕ × ℕ)) (s : State Accounts Voters) → plan (prune_sessions T eras s) ≡ plan s
  prune_sessions-plan [] s = refl
  prune_sessions-plan (x ∷ eras) s = refl

  bond_era-view :
      (era session : ℕ) (s : Chain Accounts Voters) → view (bond_era T era session s) ≡ view s
  unfolding bond_era
  bond_era-view era session s =
      let bonded = s.bonded_eras ++ ((era, session) ∷ []) in
      let k = era - T.base.bonding_duration in
      let cleared = clear_each (pruned_eras k bonded) s.staking in
      ground (
        arith,
        staking-view s (prune_sessions T (kept_eras k bonded) cleared) (
            prune_sessions-plan (kept_eras k bonded) cleared
            ∙ clear_each-plan (pruned_eras k bonded) s.staking),
      )

  pub start_era-view :
      (session : ℕ) (s : Chain Accounts Voters)
      → view (start_era T session s)
        ≡ view (record s {
          active_era = some (record { index = next_active s.active_era; start = none });
        })
  unfolding start_era apply_unapplied_slashes
  start_era-view session s =
      let era = next_active s.active_era in
      let s₁ : Chain Accounts Voters = record s {
        active_era = some (record { index = era; start = none });
      } in
      let s₂ = bond_era T era session s₁ in
      apply_from-view (era - T.slash_defer_duration) s₂.earliest_unapplied_slash s₂
      ∙ bond_era-view era session s₁

  pub store_stakers_info-view :
      (exposures : Exposures) (era : ℕ) (s : Chain Accounts Voters)
      → view (store_stakers_info T exposures era s).1 ≡ view s
  unfolding store_stakers_info
  store_stakers_info-view exposures era s =
      let elected = map stash_of exposures in
      let s₁ = store_exposures T.max_nominator_rewarded_per_validator era exposures s in
      staking-view s₁ (store_prefs era elected s₁.staking) (store_prefs-plan era elected s₁.staking)
      ∙ store_exposures-view T.max_nominator_rewarded_per_validator era exposures s
