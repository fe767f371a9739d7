-- ===== src/Staking/Sound.antt =====
-- The books of a ledger of frame/staking/src/lib.rs: its total is its active stake and what is
-- being unlocked.
use mathlib.Core.List.{reverse, reverse_aux}
use blockchain_protocol_v.Common.{
  ℕ, ◌+◌, ◌-◌, ◌≤◌, ◌<◌, ◌≡◌, refl, List, [], ◌∷◌, ◌++◌, leb, min, u128_mod, arith,
  wrapping_add_small, Bool, true, ◌&&◌,
}
use blockchain_protocol_v.Staking.Ledger.{
  UnlockChunk, StakingLedger, consolidate_chunks, consolidate_unlocked, rebond_chunks, rebond,
}

abbrev pub chunks_sum : List UnlockChunk → ℕ
chunks_sum [] = 0
chunks_sum (c ∷ cs) = c.value + chunks_sum cs

-- "It's just `active` plus all the `unlocking` balances", and it fits a balance.
abbrev pub Sound : StakingLedger → Type 0
Sound l = (l.total ≡ l.active + chunks_sum l.unlocking) × (l.total < u128_mod)

chunks_sum-append :
    (cs ds : List UnlockChunk) → chunks_sum (cs ++ ds) ≡ chunks_sum cs + chunks_sum ds
chunks_sum-append [] ds = omega arith
chunks_sum-append (c ∷ cs) ds = omega (arith, chunks_sum-append cs ds)

chunks_sum-reverse : (cs : List UnlockChunk) → chunks_sum (reverse cs) ≡ chunks_sum cs
chunks_sum-reverse cs = omega (arith, go cs [])
  where
    go : (cs ds : List UnlockChunk) → chunks_sum (reverse_aux cs ds) ≡ chunks_sum cs + chunks_sum ds
    go [] ds = omega arith
    go (c ∷ cs) ds = omega (arith, go cs (c ∷ ds))

consolidate_chunks-total :
    (era : ℕ) (cs : List UnlockChunk) (total rest : ℕ)
    → total ≡ rest + chunks_sum cs
    → let (kept, left) = consolidate_chunks era cs total in
      (left ≡ rest + chunks_sum kept) × (left ≤ total)
consolidate_chunks-total era [] total rest h = (h, omega arith)
consolidate_chunks-total era (c ∷ cs) total rest h = ground (
  arith,
  consolidate_chunks-total era cs total (rest + c.value),
  consolidate_chunks-total era cs (total - c.value) rest,
)

-- What the loop of `rebond` unlocks has left the chunks, is in the active stake, and is the lesser
-- of `value` and what the chunks held.
rebond_chunks-moves :
    (value : ℕ) (cs : List UnlockChunk) (active unlocked : ℕ)
    → unlocked ≤ value
    → active + chunks_sum cs < u128_mod
    → unlocked ≤ active
    → let (left, active', unlocked') = rebond_chunks value cs active unlocked in
      (chunks_sum left + active' ≡ chunks_sum cs + active)
      × (active' + unlocked ≡ active + unlocked')
      × (unlocked' ≡ min value (unlocked + chunks_sum cs))
rebond_chunks-moves value [] active unlocked u h k = ground arith
rebond_chunks-moves value (c ∷ cs) active unlocked u h k = ground (
  arith,
  wrapping_add_small u128_mod unlocked c.value,
  wrapping_add_small u128_mod active c.value,
  wrapping_add_small u128_mod active (value - unlocked),
  wrapping_add_small u128_mod unlocked (value - unlocked),
  rebond_chunks-moves value cs (active + c.value) (unlocked + c.value),
)

-- Removing the chunks that are unlocked keeps the books.
pub consolidate_unlocked-Sound :
    (era : ℕ) (l : StakingLedger) → Sound l → Sound (consolidate_unlocked era l)
unfolding consolidate_unlocked
consolidate_unlocked-Sound era l (total, fits) =
    ground (arith, consolidate_chunks-total era l.unlocking l.total l.active total)

-- No chunk unlocks after an era.
abbrev pub unlocked_by : ℕ → List UnlockChunk → Bool
unlocked_by era [] = true
unlocked_by era (c ∷ cs) = leb c.era era && unlocked_by era cs

consolidate_chunks-all :
    (era : ℕ) (cs : List UnlockChunk) (total : ℕ)
    → unlocked_by era cs ≡ true
    → (consolidate_chunks era cs total).0 ≡ []
consolidate_chunks-all era [] total h = refl
consolidate_chunks-all era (c ∷ cs) total h =
    ground (arith, h, consolidate_chunks-all era cs (total - c.value))

-- What was unbonded comes out: once the era of every chunk is reached, removing the unlocked chunks
-- leaves none, and a total that is the active stake, which did not change.
pub consolidate_releases :
    (era : ℕ) (l : StakingLedger)
    → Sound l
    → unlocked_by era l.unlocking ≡ true
    → let l' = consolidate_unlocked era l in
      (l'.unlocking ≡ []) × (l'.total ≡ l'.active) × (l'.active ≡ l.active)
unfolding consolidate_unlocked
consolidate_releases era l (total, fits) h = ground (
  arith,
  consolidate_chunks-all era l.unlocking l.total h,
  consolidate_chunks-total era l.unlocking l.total l.active total,
)

-- Rebonding leaves the total and its books, moves the lesser of `value` and all that was being
-- unlocked, and returns what it moved.
pub rebond_moves :
    (value : ℕ) (l : StakingLedger)
    → Sound l
    → let (l', rebonded) = rebond value l in
      Sound l'
      × (l'.total ≡ l.total)
      × (l'.active ≡ l.active + rebonded)
      × (rebonded ≡ min value (chunks_sum l.unlocking))
unfolding rebond
rebond_moves value l (total, fits) = ground (
  arith,
  rebond_chunks-moves value (reverse l.unlocking) l.active 0,
  chunks_sum-reverse l.unlocking,
  chunks_sum-reverse (rebond_chunks value (reverse l.unlocking) l.active 0).0,
)
