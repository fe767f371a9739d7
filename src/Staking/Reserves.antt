-- ===== src/Staking/Reserves.antt =====
-- What the eras of frame/staking/src/pallet/impls.rs keep of the fund for rewards not yet claimed.
use blockchain_protocol_v.Revenue.Wallet.{trigger_wallet}
use blockchain_protocol_v.Common.{
  ℕ, zero, suc, ◌+◌, ◌≤◌, ◌<◌, ◌≡◌, refl, nat_eq, arith, u128_mod, ◌-◌, true, some, max,
}
use blockchain_protocol_v.Common.Storage.{Map, get, insert, get-insert, contains_key}
use mathlib.Core.Path.{subst}
use blockchain_protocol_v.Revenue.Wallet
use blockchain_protocol_v.Staking.Eras.{
  State, not_claimed_from, get_total_not_claimed_reward, update_not_claimed_reward, end_era,
  first_era, ActiveEraInfo, fund_balance, pay_era,
}

-- The rewards of `count` eras from `era` on.
abbrev pub reserved : Map ℕ ℕ → ℕ → ℕ → ℕ
reserved rewards zero era = 0
reserved rewards (suc count) era = get 0 era rewards + reserved rewards count (era + 1)

not_claimed_from-reserved :
    (rewards : Map ℕ ℕ) (count era result : ℕ)
    → result + reserved rewards count era < u128_mod
    → not_claimed_from rewards count era result ≡ result + reserved rewards count era
not_claimed_from-reserved rewards zero era result fits = omega arith
not_claimed_from-reserved rewards (suc count) era result fits = ground (
  arith,
  not_claimed_from-reserved rewards count (era + 1) (result + get 0 era rewards),
  not_claimed_from-reserved rewards count (era + 1) result,
)

-- Writing an era after the last one that is counted.
reserved-after :
    (rewards : Map ℕ ℕ) (count era last v : ℕ)
    → era + count ≤ last
    → reserved (insert last v rewards) count era ≡ reserved rewards count era
reserved-after rewards zero era last v le = refl
reserved-after rewards (suc count) era last v le =
    ground (arith, reserved-after rewards count (era + 1) last v, get-insert 0 era last v rewards)

reserved-append :
    (rewards : Map ℕ ℕ) (count era : ℕ)
    → reserved rewards (suc count) era ≡ reserved rewards count era + get 0 (era + count) rewards
reserved-append rewards zero era = ground arith
reserved-append rewards (suc count) era = ground (arith, reserved-append rewards count (era + 1))

-- The totals of a state: what is reserved for the eras that are counted at the end of `era`, and for
-- them and `era`.
module _ {Ledger : Type 0} where
  abbrev pub reserved_before : ℕ → State Ledger → ℕ
  reserved_before era s =
      reserved s.eras_not_claimed_reward (era - first_era era s) (first_era era s)

  abbrev pub reserved_with : ℕ → State Ledger → ℕ
  reserved_with era s =
      reserved s.eras_not_claimed_reward (suc (era - first_era era s)) (first_era era s)

  get_total-reserved :
      (era : ℕ) (s : State Ledger)
      → reserved_before era s < u128_mod
      → get_total_not_claimed_reward era s ≡ reserved_before era s
  unfolding get_total_not_claimed_reward
  get_total-reserved era s fits = ground (
    arith,
    not_claimed_from-reserved s.eras_not_claimed_reward (era - first_era era s) (first_era era s) 0,
  )

  -- A payout of a counted era that is at most what is left of its reward lowers what is reserved by
  -- exactly the payout.
  pub payout_releases :
      (era paid count first : ℕ) (s : State Ledger)
      → contains_key era s.eras_not_claimed_reward ≡ true
      → paid ≤ get 0 era s.eras_not_claimed_reward
      → first ≤ era
      → era < first + count
      → reserved (update_not_claimed_reward era paid s).eras_not_claimed_reward count first + paid
        ≡ reserved s.eras_not_claimed_reward count first
  unfolding update_not_claimed_reward
  payout_releases era paid count first s there le low high = ground (arith, go count first low high)
    where
      rewards : Map ℕ ℕ
      rewards = s.eras_not_claimed_reward

      above :
          (n f : ℕ)
          → era < f
          → reserved (insert era (get 0 era rewards - paid) rewards) n f ≡ reserved rewards n f
      above zero f l = refl
      above (suc n) f l =
          ground (arith, above n (f + 1), get-insert 0 f era (get 0 era rewards - paid) rewards)

      go :
          (n f : ℕ)
          → f ≤ era
          → era < f + n
          → reserved (insert era (get 0 era rewards - paid) rewards) n f + paid
            ≡ reserved rewards n f
      go zero f l h = omega arith
      go (suc n) f l h = ground (
        arith,
        go n (f + 1),
        above n (f + 1),
        get-insert 0 f era (get 0 era rewards - paid) rewards,
      )

module _ {Origin Ledger : Type 0} (T : Wallet.Config Origin Ledger) where
  pay_era_reserves :
      (era : ℕ) (t : State Ledger)
      → reserved_before era t < u128_mod
      → reserved_with era (pay_era T era t) ≡ max (fund_balance T t) (reserved_before era t)
  unfolding pay_era fund_balance
  pay_era_reserves era t h =
      let first = first_era era t in
      let n = era - first in
      let payout = fund_balance T t - get_total_not_claimed_reward era t in
      let rewards = insert era payout t.eras_not_claimed_reward in
      let last : first + n ≡ era = omega arith in
      ground (
        arith,
        reserved-append rewards n first,
        reserved-after t.eras_not_claimed_reward n first era payout,
        get-insert 0 (first + n) era payout t.eras_not_claimed_reward,
        get_total-reserved era t h,
        last,
      )

  -- The end of an era that has started reserves what the fund holds above the existential deposit:
  -- with the new era's reward, what is reserved is then the fund's balance, or what was reserved
  -- before if that was more. What was reserved fits a balance.
  pub end_era_reserves_fund :
      (active_era : ActiveEraInfo) (start : ℕ) (s : State Ledger)
      → active_era.start ≡ some start
      → reserved_before active_era.index s < u128_mod
      → let s' = end_era T active_era s in
        reserved_with active_era.index s'
        ≡ max (fund_balance T s') (reserved_before active_era.index s)
  unfolding end_era fund_balance pay_era
  end_era_reserves_fund active_era start s started fits =
      let t : State Ledger = record s { wallet = trigger_wallet T s.wallet } in
      let ended : pay_era T active_era.index t ≡ end_era T active_era s =
        rw (started, end_era) refl in
      subst
        (λ (s' : State Ledger).
          reserved_with active_era.index s'
          ≡ max (fund_balance T s') (reserved_before active_era.index s))
        ended (pay_era_reserves active_era.index t fits)
