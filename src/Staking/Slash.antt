-- ===== src/Staking/Slash.antt =====
-- `StakingLedger::slash` of frame/staking/src/lib.rs. What `Perquintill::from_rational(a, b) * x`
-- is comes from outside the repository: `ratio a b x`.
use mathlib.Core.List.{reverse}
use blockchain_protocol_v.Common.{
  ℕ, zero, suc, ◌+◌, ◌-◌, Bool, true, false, Option, none, some, List, [], ◌∷◌, ltb, leb, nat_beq,
  min, if◌then◌else◌, nat_eq, u128_mod, saturating_add, ◌++◌, length, drop,
}
use blockchain_protocol_v.Common.Storage.{Map, insert}
use blockchain_protocol_v.Staking.Ledger.{UnlockChunk, StakingLedger}

-- `position`: the index of the first chunk that a test accepts.
abbrev pub position : (UnlockChunk → Bool) → List UnlockChunk → Option ℕ
position p [] = none
position p (c ∷ cs) =
    let later = position p cs in
    if p c then some 0 else elim later [ none ↦ none | some i ↦ some (suc i) ]

abbrev pub chunk_at : ℕ → List UnlockChunk → Option UnlockChunk
chunk_at i [] = none
chunk_at zero (c ∷ cs) = some c
chunk_at (suc i) (c ∷ cs) = chunk_at i cs

abbrev pub set_at : ℕ → UnlockChunk → List UnlockChunk → List UnlockChunk
set_at i x [] = []
set_at zero x (c ∷ cs) = x ∷ cs
set_at (suc i) x (c ∷ cs) = c ∷ set_at i x cs

-- `start..start + count`
abbrev pub range : ℕ → ℕ → List ℕ
range start zero = []
range start (suc count) = start ∷ range (suc start) count

abbrev pub sum_from : List UnlockChunk → ℕ → ℕ
sum_from [] sum = sum
sum_from (c ∷ cs) sum = sum_from cs (saturating_add u128_mod sum c.value)

-- The balance that the slash is of, and the order in which it reaches the chunks: those that unlock
-- at `unlock_era` or later and then the others from the last back, or all from the last back.
unfoldable pub affected : ℕ → StakingLedger → ℕ × List ℕ
affected unlock_era l = elim (position (λ c. leb unlock_era c.era) l.unlocking) [
  | some start ↦ (
    saturating_add u128_mod l.active (sum_from (drop start l.unlocking) 0),
    range start (length l.unlocking - start) ++ reverse (range 0 start),
  )
  | none ↦ (l.active, reverse (range 0 (length l.unlocking)))
]

-- `slash_out_of`: the target, what is left to slash, and the ledger's total.
abbrev pub slash_out_of : (ℕ → ℕ) → Bool → ℕ → ℕ → ℕ → ℕ → ℕ × ℕ × ℕ
slash_out_of part proportional minimum_balance target slash_remaining total =
    let slash_from_target = min (if proportional then part target else slash_remaining) target in
    let left = target - slash_from_target in
    let dust = ltb left minimum_balance in
    let taken =
      if dust then saturating_add u128_mod left slash_from_target else slash_from_target in
    (if dust then 0 else left, slash_remaining - taken, total - taken)

-- What the loop over the chunks carries; `slashed` is the map given to `OnStakerSlash`.
pub record Slashing : Type 0 where
  pub chunks : List UnlockChunk
  pub remaining : ℕ
  pub total : ℕ
  pub slashed : Map ℕ ℕ

-- An iteration of the loop on the chunk of an index.
abbrev pub slash_chunk : (ℕ → ℕ) → Bool → ℕ → ℕ → UnlockChunk → Slashing → Slashing
slash_chunk part proportional minimum_balance i chunk s =
    let (value, remaining, total) =
      slash_out_of part proportional minimum_balance chunk.value s.remaining s.total in
    record {
      chunks = set_at i (record chunk { value = value }) s.chunks;
      remaining = remaining;
      total = total;
      slashed = insert chunk.era value s.slashed;
    }

abbrev pub slash_chunks : (ℕ → ℕ) → Bool → ℕ → List ℕ → Slashing → Slashing
slash_chunks part proportional minimum_balance [] s = s
slash_chunks part proportional minimum_balance (i ∷ is) s = elim (chunk_at i s.chunks) [
  | none ↦ s
  | some chunk ↦ elim (nat_beq s.remaining 0) [
    | true ↦ s
    | false ↦
        slash_chunks part proportional minimum_balance is
          (slash_chunk part proportional minimum_balance i chunk s)
  ]
]

-- `retain(|c| !c.value.is_zero())`
abbrev pub retain_non_zero : List UnlockChunk → List UnlockChunk
retain_non_zero [] = []
retain_non_zero (c ∷ cs) =
    let rest = retain_non_zero cs in if nat_beq c.value 0 then rest else c ∷ rest

-- The new ledger, what was slashed, and the map of the slashed chunks, which with the stash and the
-- new active stake is what `OnStakerSlash` is called with.
unfoldable pub slash : (ℕ → ℕ → ℕ → ℕ) → ℕ → ℕ → ℕ → ℕ → StakingLedger → StakingLedger × ℕ × Map ℕ ℕ
slash ratio bonding_duration slash_amount minimum_balance slash_era l =
    elim (nat_beq slash_amount 0) [
      | true ↦ (l, 0, [])
      | false ↦
          let (affected_balance, indices) = affected (slash_era + 1 + bonding_duration) l in
          let part = ratio slash_amount affected_balance in
          let proportional = ltb slash_amount affected_balance in
          let (active, remaining, total) =
            slash_out_of part proportional minimum_balance l.active slash_amount l.total in
          let s =
            slash_chunks part proportional minimum_balance indices (record {
              chunks = l.unlocking;
              remaining = remaining;
              total = total;
              slashed = [];
            }) in
          (
            record l { total = s.total; active = active; unlocking = retain_non_zero s.chunks },
            l.total - s.total,
            s.slashed,
          )
    ]
