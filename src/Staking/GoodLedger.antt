-- ===== src/Staking/GoodLedger.antt =====
-- Ledgers of frame/staking with sound books and no more chunks than may be: what the calls write
-- stays such a ledger.
use mathlib.Core.List.{reverse, reverse_aux}
use blockchain_protocol_v.Common.{
  ℕ, suc, ◌+◌, ◌-◌, ◌≤◌, ◌<◌, ◌≡◌, refl, some, List, [], ◌∷◌, min, length, u128_mod, arith,
  wrapping_add, wrapping_add_small, checked_sub, Option, none, nat_eq,
}
use blockchain_protocol_v.Staking.Bonding.{join_chunk, try_join, unbond_value}
use blockchain_protocol_v.Staking.Withdrawal.{consolidated}
use blockchain_protocol_v.Staking.Ledger.{
  UnlockChunk, StakingLedger, rebond, rebond_chunks, consolidate_unlocked, consolidate_chunks,
}
use blockchain_protocol_v.Staking.Pairing.{Good}
use blockchain_protocol_v.Staking.Sound.{chunks_sum, rebond_moves, consolidate_unlocked-Sound}

-- A chunk that joins adds its value, and at most one to the number of chunks.
join_chunk-sum :
    (value era : ℕ) (cs : List UnlockChunk)
    → chunks_sum cs + value < u128_mod
    → (chunks_sum (join_chunk value era cs) ≡ chunks_sum cs + value)
      × (length (join_chunk value era cs) ≤ suc (length cs))
join_chunk-sum value era [] h = ground arith
join_chunk-sum value era (c ∷ []) h = ground arith
join_chunk-sum value era (c ∷ d ∷ cs) h = ground (arith, join_chunk-sum value era (d ∷ cs))

pub bonded_more-Good :
    (extra more free : ℕ) (l : StakingLedger)
    → Good l
    → free < u128_mod
    → checked_sub free l.total ≡ some extra
    → let added = min extra more in
      Good (record l {
        total = wrapping_add u128_mod l.total added;
        active = wrapping_add u128_mod l.active added;
      })
bonded_more-Good extra more free l good fits h = ground (
  arith,
  good,
  wrapping_add_small u128_mod l.total (min extra more),
  wrapping_add_small u128_mod l.active (min extra more),
)

pub unbonded-Good :
    (minimum wanted era : ℕ) (l : StakingLedger) (chunks : List UnlockChunk)
    → Good l
    → wanted ≤ l.active
    → let (value, active) = unbond_value minimum l.active wanted in
      try_join value era l.unlocking ≡ some chunks
      → Good (record l { active = active; unlocking = chunks })
unbonded-Good minimum wanted era l chunks good le h =
    let value = (unbond_value minimum l.active wanted).0 in
    ground (
      arith,
      good,
      h,
      wrapping_add_small u128_mod wanted (l.active - wanted),
      join_chunk-sum value era l.unlocking,
    )

length-reverse : (cs : List UnlockChunk) → length (reverse cs) ≡ length cs
length-reverse cs = omega (arith, go cs [])
  where
    go : (cs ds : List UnlockChunk) → length (reverse_aux cs ds) ≡ length cs + length ds
    go [] ds = omega arith
    go (c ∷ cs) ds = omega (arith, go cs (c ∷ ds))

rebond_chunks-length :
    (value : ℕ) (cs : List UnlockChunk) (active unlocked : ℕ)
    → length (rebond_chunks value cs active unlocked).0 ≤ length cs
rebond_chunks-length value [] active unlocked = omega arith
rebond_chunks-length value (c ∷ cs) active unlocked = ground (
  arith,
  rebond_chunks-length value cs (wrapping_add u128_mod active c.value)
      (wrapping_add u128_mod unlocked c.value),
)

pub rebond-Good : (value : ℕ) (l : StakingLedger) → Good l → Good (rebond value l).0
unfolding rebond
rebond-Good value l (sound, few) =
    let left = (rebond_chunks value (reverse l.unlocking) l.active 0).0 in
    (
      (rebond_moves value l sound).0,
      omega (
        arith,
        length-reverse left,
        length-reverse l.unlocking,
        rebond_chunks-length value (reverse l.unlocking) l.active 0,
      ),
    )

pub rebond_same_stash :
    (value : ℕ) (l : StakingLedger) → some l.stash ≡ some (rebond value l).0.stash
unfolding rebond
rebond_same_stash value l = refl

consolidate_chunks-length :
    (era : ℕ) (cs : List UnlockChunk) (total : ℕ)
    → length (consolidate_chunks era cs total).0 ≤ length cs
consolidate_chunks-length era [] total = omega arith
consolidate_chunks-length era (c ∷ cs) total = ground (
  arith,
  consolidate_chunks-length era cs total,
  consolidate_chunks-length era cs (total - c.value),
)

pub consolidated-Good : (era : Option ℕ) (l : StakingLedger) → Good l → Good (consolidated era l)
unfolding consolidate_unlocked
consolidated-Good none l good = good
consolidated-Good (some era) l (sound, few) = (
  consolidate_unlocked-Sound era l sound,
  omega (arith, few, consolidate_chunks-length era l.unlocking l.total),
)

pub consolidated_same_stash :
    (era : Option ℕ) (l : StakingLedger) → some l.stash ≡ some (consolidated era l).stash
unfolding consolidate_unlocked
consolidated_same_stash none l = refl
consolidated_same_stash (some era) l = refl
