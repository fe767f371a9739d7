-- ===== src/Staking/Ledger.antt =====
-- `StakingLedger` of frame/staking/src/lib.rs: the stake of one stash, and the chunks of it that
-- are being unlocked, in the order of their eras.
use mathlib.Core.List.{reverse}
use blockchain_protocol_v.Common.{
  ℕ, ◌-◌, true, false, List, [], ◌∷◌, ltb, leb, if◌then◌else◌, nat_eq, u128_mod, wrapping_add,
}

pub record UnlockChunk : Type 0 where
  pub value : ℕ
  pub era : ℕ

pub record StakingLedger : Type 0 where
  pub stash : ℕ
  pub total : ℕ
  pub active : ℕ
  pub unlocking : List UnlockChunk
  pub claimed_rewards : List ℕ

unfoldable pub default_from : ℕ → StakingLedger
default_from who = record {
  stash = who;
  total = 0;
  active = 0;
  unlocking = [];
  claimed_rewards = [];
}

-- The filter, which takes the chunks that it drops off the total.
abbrev pub consolidate_chunks : ℕ → List UnlockChunk → ℕ → List UnlockChunk × ℕ
consolidate_chunks current_era [] total = ([], total)
consolidate_chunks current_era (chunk ∷ chunks) total =
    let keep = ltb current_era chunk.era in
    let rest =
      consolidate_chunks current_era chunks (if keep then total else total - chunk.value) in
    (if keep then chunk ∷ rest.0 else rest.0, rest.1)

unfoldable pub consolidate_unlocked : ℕ → StakingLedger → StakingLedger
consolidate_unlocked current_era l =
    let rest = consolidate_chunks current_era l.unlocking l.total in
    record l { unlocking = rest.0; total = rest.1 }

-- The loop of `rebond` over the chunks from the last one on, with the active stake and the balance
-- that is unlocked so far. The second branch leaves the loop, since it brings that balance to
-- `value`.
abbrev pub rebond_chunks : ℕ → List UnlockChunk → ℕ → ℕ → List UnlockChunk × ℕ × ℕ
rebond_chunks value [] active unlocking_balance = ([], active, unlocking_balance)
rebond_chunks value (last ∷ rest) active unlocking_balance =
    let taken = wrapping_add u128_mod unlocking_balance last.value in
    let more = wrapping_add u128_mod active last.value in
    let diff = value - unlocking_balance in
    elim (leb taken value) [
      | true ↦ elim (leb value taken) [
        | true ↦ (rest, more, taken)
        | false ↦ rebond_chunks value rest more taken
      ]
      | false ↦ (
        record last { value = last.value - diff } ∷ rest,
        wrapping_add u128_mod active diff,
        wrapping_add u128_mod unlocking_balance diff,
      )
    ]

unfoldable pub rebond : ℕ → StakingLedger → StakingLedger × ℕ
rebond value l =
    let (chunks, active, unlocking_balance) =
      rebond_chunks value (reverse l.unlocking) l.active 0 in
    (record l { unlocking = reverse chunks; active = active }, unlocking_balance)
