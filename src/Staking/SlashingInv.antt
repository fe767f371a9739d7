-- ===== src/Staking/SlashingInv.antt =====
-- Applying a slash of frame/staking/src/slashing.rs keeps the invariant, and the slashed funds.
use blockchain_protocol_v.Common.{
  ◌∙◌, ℕ, ◌+◌, ◌-◌, ◌/◌, ◌≤◌, ◌<◌, ◌≡◌, refl, Bool, true, false, Option, none, some, List, [], ◌∷◌,
  nat_eq, nat_beq, min, length, arith, u128_mod, ap, saturating_add,
}
use blockchain_protocol_v.Common.Storage.{lookup}
use blockchain_protocol_v.Staking.Bonding.{minimum_balance}
use blockchain_protocol_v.Staking.BondingInv.{write-Inv}
use blockchain_protocol_v.Staking.Invariant.{Inv}
use blockchain_protocol_v.Staking.Ledger.{StakingLedger}
use blockchain_protocol_v.Staking.Pairing.{Good, stash_in}
use blockchain_protocol_v.Staking.Slash.{slash}
use blockchain_protocol_v.Staking.SlashSound.{slash-Sound, slash-length}
use blockchain_protocol_v.Staking.Slashing.{
  UnappliedSlash, Progress, slash_ledger, do_slash, slash_others, pay_each, pay_reporters,
  apply_slash,
}
use blockchain_protocol_v.Staking.Stakers.{accounts, set_accounts}
use blockchain_protocol_v.Staking.Types.{Config, State}

slash-Good :
    (ratio : ℕ → ℕ → ℕ → ℕ) (bonding_duration amount minimum era : ℕ) (l : StakingLedger)
    → Good l
    → Good (slash ratio bonding_duration amount minimum era l).0
slash-Good ratio bonding_duration amount minimum era l (sound, few) = (
  slash-Sound ratio bonding_duration amount minimum era l sound,
  omega (arith, few, slash-length ratio bonding_duration amount minimum era l),
)

slash_same_stash :
    (ratio : ℕ → ℕ → ℕ → ℕ) (bonding_duration amount minimum era : ℕ) (l : StakingLedger)
    → some l.stash ≡ some (slash ratio bonding_duration amount minimum era l).0.stash
unfolding slash
slash_same_stash ratio bonding_duration amount minimum era l = ground arith

module _ {Origin Accounts Voters : Type 0} (T : Config Origin Accounts Voters) where
  slash_ledger-Inv :
      (who c amount era : ℕ) (l : StakingLedger) (p : Progress Accounts Voters)
      → Inv p.state
      → lookup c p.state.ledger ≡ some l
      → Inv (slash_ledger T who c amount era l p).state
  unfolding slash_ledger
  slash_ledger-Inv who c amount era l p inv here =
      go (nat_beq (slash T.ratio T.bonding_duration amount (minimum_balance T) era l).1 0) refl
    where
      new : StakingLedger
      new = (slash T.ratio T.bonding_duration amount (minimum_balance T) era l).0

      value : ℕ
      value = (slash T.ratio T.bonding_duration amount (minimum_balance T) era l).1

      go : (b : Bool) → nat_beq value 0 ≡ b → Inv (slash_ledger T who c amount era l p).state
      go true h = rw (h, slash_ledger) inv
      go false h =
          let s = set_accounts (T.slash_balance who value (accounts p.state)).2 p.state in
          let kept =
            write-Inv T c new s
              (record { paired = inv.paired; good = inv.good; exclusive = inv.exclusive })
              (ap stash_in here
                ∙ slash_same_stash T.ratio T.bonding_duration amount (minimum_balance T) era l)
              (slash-Good T.ratio T.bonding_duration amount (minimum_balance T) era l
                (inv.good c l here)) in
          rw (h, slash_ledger)
            record { paired = kept.paired; good = kept.good; exclusive = kept.exclusive }

  do_slash-Inv :
      (who amount era : ℕ) (p : Progress Accounts Voters)
      → Inv p.state
      → Inv (do_slash T who amount era p).state
  unfolding do_slash
  do_slash-Inv who amount era p inv = go (lookup who p.state.bonded) refl
    where
      found :
          (c : ℕ) (o : Option StakingLedger)
          → lookup who p.state.bonded ≡ some c
          → lookup c p.state.ledger ≡ o
          → Inv (do_slash T who amount era p).state
      found c none h e = rw (h, e, do_slash) inv
      found c (some l) h e = rw (h, e, do_slash) (slash_ledger-Inv who c amount era l p inv e)

      go : (o : Option ℕ) → lookup who p.state.bonded ≡ o → Inv (do_slash T who amount era p).state
      go none h = rw (h, do_slash) inv
      go (some c) h = found c (lookup c p.state.ledger) h refl

  slash_others-Inv :
      (others : List (ℕ × ℕ)) (era : ℕ) (p : Progress Accounts Voters)
      → Inv p.state
      → Inv (slash_others T others era p).state
  slash_others-Inv [] era p inv = inv
  slash_others-Inv ((who, amount) ∷ others) era p inv =
      slash_others-Inv others era (do_slash T who amount era p) (do_slash-Inv who amount era p inv)

  pub apply_slash-Inv :
      (unapplied : UnappliedSlash) (era : ℕ) (s : State Accounts Voters)
      → Inv s
      → Inv (apply_slash T unapplied era s)
  unfolding apply_slash
  apply_slash-Inv unapplied era s inv =
      let p : Progress Accounts Voters = record {
        reward_payout = unapplied.payout;
        slashed_imbalance = 0;
        state = s;
      } in
      let kept =
        slash_others-Inv unapplied.others era (do_slash T unapplied.validator unapplied.own era p)
          (do_slash-Inv unapplied.validator unapplied.own era p inv) in
      record { paired = kept.paired; good = kept.good; exclusive = kept.exclusive }

  pay_each-conserves :
      (held : Accounts → ℕ)
      → ((who amount : ℕ) (a : Accounts) → held (T.resolve_creating who amount a) ≡ held a + amount)
      → (each : ℕ) (reporters : List ℕ) (payout : ℕ) (a : Accounts)
      → let (rest, a') = pay_each T each reporters payout a in
        (held a' + rest ≡ held a + payout) × (rest ≤ payout)
  pay_each-conserves held creates each [] payout a = omega arith
  pay_each-conserves held creates each (x ∷ xs) payout a =
      let reward = min each payout in
      omega (
        arith,
        creates x reward a,
        (pay_each-conserves held creates each xs (payout - reward)
            (T.resolve_creating x reward a)).0,
        (pay_each-conserves held creates each xs (payout - reward)
            (T.resolve_creating x reward a)).1,
      )

  -- What was slashed goes to the reporters and to the handler of slashes, all of it and no more, where
  -- `held` is what the accounts hold, to which a deposit for a reporter and the handler add what they
  -- are given, and the imbalance fits a `u128`.
  pub pay_reporters_conserves :
      (held : Accounts → ℕ)
      → ((who amount : ℕ) (a : Accounts) → held (T.resolve_creating who amount a) ≡ held a + amount)
      → ((amount : ℕ) (a : Accounts) → held (T.on_unbalanced amount a) ≡ held a + amount)
      → (reward_payout slashed_imbalance : ℕ) (reporters : List ℕ) (a : Accounts)
      → slashed_imbalance < u128_mod
      → held (pay_reporters T reward_payout slashed_imbalance reporters a)
        ≡ held a + slashed_imbalance
  unfolding pay_reporters
  pay_reporters_conserves held creates handles reward_payout slashed_imbalance reporters a fits =
      let payout = min reward_payout slashed_imbalance in
      let each = payout / length reporters in
      let paid = pay_each T each reporters payout a in
      ground (
        arith,
        handles slashed_imbalance a,
        handles (saturating_add u128_mod (slashed_imbalance - payout) paid.0) paid.1,
        pay_each-conserves held creates each reporters payout a,
        fits,
      )
