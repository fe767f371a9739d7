-- ===== src/Staking/SameClaims.antt =====
-- What the payouts of frame/staking leave: bonds, eras, and the eras that are claimed.
use blockchain_protocol_v.Common.Action.{choosing}
use blockchain_protocol_v.Staking.Eras.{update_not_claimed_reward}
use blockchain_protocol_v.Common.{
  pair_eq, ◌∙◌, ℕ, ◌≡◌, refl, Option, none, some, List, [], ◌∷◌, nat_eq, arith, nat_beq_iff,
  wrapping_add, u128_mod, ◌-◌, nat_beq,
}
use blockchain_protocol_v.Common.Storage.{lookup, lookup-insert, insert, get}
use blockchain_protocol_v.Staking.Ledger.{StakingLedger}
use blockchain_protocol_v.Staking.Payouts.{
  make_payout, pay, settle_payout, claim_and_pay, pay_nominators, pay_stakers, total_payout,
  default_exposure, default_points, points_of, commission_payout,
}
use blockchain_protocol_v.Staking.Stakers.{deposit_event, update_ledger}
use blockchain_protocol_v.Staking.Types.{
  Config, State, IndividualExposure, Exposure, payout_started,
}

module _ {Accounts Voters : Type 0} where
  abbrev pub claimed_at : ℕ → State Accounts Voters → Option (List ℕ)
  claimed_at c s = elim (lookup c s.ledger) [ none ↦ none | some l ↦ some l.claimed_rewards ]

  -- What payouts leave as it was.
  pub record SameClaims (s t : State Accounts Voters) : Type 0 where
    pub bonds : s.bonded ≡ t.bonded
    pub era : s.current_era ≡ t.current_era
    pub depth : s.eras.history_depth ≡ t.eras.history_depth
    pub rewards : s.eras.eras_validator_reward ≡ t.eras.eras_validator_reward
    pub claims : (c : ℕ) → claimed_at c s ≡ claimed_at c t

  SameClaims-trans :
      {s t u : State Accounts Voters} → SameClaims s t → SameClaims t u → SameClaims s u
  SameClaims-trans a b = record {
    bonds = a.bonds ∙ b.bonds;
    era = a.era ∙ b.era;
    depth = a.depth ∙ b.depth;
    rewards = a.rewards ∙ b.rewards;
    claims = λ c. a.claims c ∙ b.claims c;
  }

module _ {Origin Accounts Voters : Type 0} (T : Config Origin Accounts Voters) where
  make_payout-SameClaims :
      (who amount : ℕ) (s : State Accounts Voters) → SameClaims s (make_payout T who amount s).1
  unfolding make_payout update_ledger
  make_payout-SameClaims who amount s = record {
    bonds = ground arith;
    era = ground arith;
    depth = ground arith;
    rewards = ground arith;
    claims = λ c. claims c (lookup who s.bonded) refl;
  }
    where
      claims :
          (c : ℕ) (b : Option ℕ)
          → lookup who s.bonded ≡ b
          → claimed_at c s ≡ claimed_at c (make_payout T who amount s).1
      claims c none h = ground (arith, h)
      claims c (some c') h = here (lookup c' s.ledger) refl
        where
          here :
              (o : Option StakingLedger)
              → lookup c' s.ledger ≡ o
              → claimed_at c s ≡ claimed_at c (make_payout T who amount s).1
          here none e = ground (arith, h, e)
          here (some l) e =
              let l' : StakingLedger = record l {
                active = wrapping_add u128_mod l.active amount;
                total = wrapping_add u128_mod l.total amount;
              } in
              ground (arith, h, e, lookup-insert c c' l' s.ledger, nat_beq_iff c c')

  pay-SameClaims :
      (who amount : ℕ) (r : ℕ × State Accounts Voters) → SameClaims r.1 (pay T who amount r).1
  unfolding pay
  pay-SameClaims who amount (total, s) = go (make_payout T who amount s).0 refl
    where
      same : SameClaims s (make_payout T who amount s).1
      same = make_payout-SameClaims who amount s

      go :
          (o : Option ℕ)
          → (make_payout T who amount s).0 ≡ o
          → SameClaims s (pay T who amount (total, s)).1
      go none h = rw (h, pay) same
      go (some imbalance) h =
          rw (h, pay)
            record {
              bonds = same.bonds;
              era = same.era;
              depth = same.depth;
              rewards = same.rewards;
              claims = same.claims;
            }

  pay_nominators-SameClaims :
      (leftover exposed : ℕ) (others : List IndividualExposure) (r : ℕ × State Accounts Voters)
      → SameClaims r.1 (pay_nominators T leftover exposed others r).1
  pay_nominators-SameClaims leftover exposed [] r = record {
    bonds = refl;
    era = refl;
    depth = refl;
    rewards = refl;
    claims = λ c. refl;
  }
  pay_nominators-SameClaims leftover exposed (x ∷ others) r =
      let amount = T.part x.value exposed leftover in
      SameClaims-trans (pay-SameClaims x.who amount r)
        (pay_nominators-SameClaims leftover exposed others (pay T x.who amount r))

  settle_payout-SameClaims :
      (era value : ℕ) (s : State Accounts Voters) → SameClaims s (settle_payout T era value s).1
  unfolding settle_payout update_not_claimed_reward
  settle_payout-SameClaims era value s = record {
    bonds = ground arith;
    era = ground arith;
    depth = ground arith;
    rewards = ground arith;
    claims = λ c. ground arith;
  }

  pay_stakers-SameClaims :
      (validator_stash who era era_payout points : ℕ) (exposure : Exposure)
      (s : State Accounts Voters)
      → SameClaims s (pay_stakers T validator_stash who era era_payout points exposure s).1
  unfolding pay_stakers
  pay_stakers-SameClaims validator_stash who era era_payout points exposure s =
      let total = total_payout T era_payout points (get default_points era s.eras_reward_points) in
      let commission = commission_payout T era validator_stash s total in
      let leftover = total - commission in
      let own = T.part exposure.own exposure.total leftover in
      let begun : ℕ × State Accounts Voters = (0, deposit_event (payout_started era who) s) in
      let same : SameClaims s begun.1 = record {
        bonds = refl;
        era = refl;
        depth = refl;
        rewards = refl;
        claims = λ c. refl;
      } in
      let amount = wrapping_add u128_mod own commission in
      SameClaims-trans same (
        SameClaims-trans (pay-SameClaims who amount begun) (
          pay_nominators-SameClaims leftover exposure.total exposure.others
            (pay T who amount begun)))

  -- Everything after the checks leaves what the checks of a payout read, but for the ledger that it
  -- writes.
  pub claim_and_pay-SameClaims :
      (validator_stash c era era_payout : ℕ) (l : StakingLedger) (s : State Accounts Voters)
      → SameClaims
          (record s { ledger = insert c l s.ledger })
          (claim_and_pay T validator_stash c era era_payout l s).1
  unfolding claim_and_pay
  claim_and_pay-SameClaims validator_stash c era era_payout l s =
      let s' : State Accounts Voters = record s { ledger = insert c l s.ledger } in
      let exposure = get default_exposure (era, l.stash) s.eras_stakers_clipped in
      let points = points_of era l.stash s' in
      let paid = pay_stakers T validator_stash l.stash era era_payout points exposure s' in
      choosing (SameClaims s') (nat_beq points 0) _ _
        (λ _. record { bonds = refl; era = refl; depth = refl; rewards = refl; claims = λ c. refl })
        (λ _.
          SameClaims-trans
            (pay_stakers-SameClaims validator_stash l.stash era era_payout points exposure s')
            (settle_payout-SameClaims era paid.0 paid.1))
