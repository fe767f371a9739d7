-- ===== src/Staking/SlashSound.antt =====
-- What `StakingLedger::slash` of frame/staking/src/lib.rs does to the books of a ledger.
use blockchain_protocol_v.Common.{
  length, Bool-cases, inl, inr, ℕ, zero, suc, ◌+◌, ◌-◌, ◌≤◌, ◌<◌, ◌≡◌, refl, ◌⊎◌, List, [], ◌∷◌,
  ltb, u128_mod, arith, Bool, nat_beq, Option, none, some, inl, inr, nat_eq, Bool-cases,
}
use blockchain_protocol_v.Staking.Ledger.{UnlockChunk, StakingLedger}
use blockchain_protocol_v.Staking.Slash.{
  chunk_at, set_at, slash_out_of, Slashing, slash_chunk, slash_chunks, retain_non_zero, slash,
  affected,
}
use blockchain_protocol_v.Staking.Sound.{chunks_sum, Sound}

-- Slashing out of a target takes as much off the total as off the target, and leaves no dust.
slash_out_of-books :
    (part : ℕ → ℕ) (proportional : Bool) (minimum target remaining total rest : ℕ)
    → total ≡ target + rest
    → total < u128_mod
    → let (target', remaining', total') =
        slash_out_of part proportional minimum target remaining total in
      (total' ≡ target' + rest) × (target' ≤ target) × ((target' ≡ 0) ⊎ (minimum ≤ target'))
slash_out_of-books part proportional minimum target remaining total rest h fits = ground arith

chunks_sum-set_at :
    (i : ℕ) (c x : UnlockChunk) (cs : List UnlockChunk)
    → chunk_at i cs ≡ some c
    → chunks_sum (set_at i x cs) + c.value ≡ chunks_sum cs + x.value
chunks_sum-set_at i c x [] h = cc
chunks_sum-set_at zero c x (d ∷ cs) h = ground arith
chunks_sum-set_at (suc i) c x (d ∷ cs) h = omega (arith, chunks_sum-set_at i c x cs h)

chunk_at-le :
    (i : ℕ) (c : UnlockChunk) (cs : List UnlockChunk)
    → chunk_at i cs ≡ some c
    → c.value ≤ chunks_sum cs
chunk_at-le i c [] h = cc
chunk_at-le zero c (d ∷ cs) h = ground arith
chunk_at-le (suc i) c (d ∷ cs) h = omega (arith, chunk_at-le i c cs h)

slash_chunk-books :
    (part : ℕ → ℕ) (proportional : Bool) (minimum active i : ℕ) (c : UnlockChunk) (s : Slashing)
    → chunk_at i s.chunks ≡ some c
    → s.total ≡ active + chunks_sum s.chunks
    → s.total < u128_mod
    → let s' = slash_chunk part proportional minimum i c s in
      (s'.total ≡ active + chunks_sum s'.chunks) × (s'.total ≤ s.total)
slash_chunk-books part proportional minimum active i c s there h fits =
    let s' = slash_chunk part proportional minimum i c s in
    let value = (slash_out_of part proportional minimum c.value s.remaining s.total).0 in
    let x : UnlockChunk = record c { value = value } in
    let moved = chunks_sum-set_at i c x s.chunks there in
    let rest : ℕ = s.total - c.value in
    let part_of = chunk_at-le i c s.chunks there in
    let books =
      slash_out_of-books part proportional minimum c.value s.remaining s.total rest (omega arith)
        fits in
    omega (arith, books.0, books.1)

slash_chunks-books :
    (part : ℕ → ℕ) (proportional : Bool) (minimum active : ℕ) (is : List ℕ) (s : Slashing)
    → s.total ≡ active + chunks_sum s.chunks
    → s.total < u128_mod
    → let s' = slash_chunks part proportional minimum is s in
      (s'.total ≡ active + chunks_sum s'.chunks) × (s'.total ≤ s.total)
slash_chunks-books part proportional minimum active [] s h fits = (h, omega arith)
slash_chunks-books part proportional minimum active (i ∷ is) s h fits =
    go (chunk_at i s.chunks) (λ s'. slash_chunks-books part proportional minimum active is s') refl
  where
    go :
        (o : Option UnlockChunk)
        → ((s' : Slashing)
            → s'.total ≡ active + chunks_sum s'.chunks
            → s'.total < u128_mod
            → let s'' = slash_chunks part proportional minimum is s' in
              (s''.total ≡ active + chunks_sum s''.chunks) × (s''.total ≤ s'.total))
        → chunk_at i s.chunks ≡ o
        → let s' = slash_chunks part proportional minimum (i ∷ is) s in
          (s'.total ≡ active + chunks_sum s'.chunks) × (s'.total ≤ s.total)
    go none rest e = rw (e, slash_chunks) (h, omega arith)
    go (some c) rest e = ground (
      arith,
      e,
      slash_chunk-books part proportional minimum active i c s e h fits,
      rest (slash_chunk part proportional minimum i c s),
    )

retain-sum : (cs : List UnlockChunk) → chunks_sum (retain_non_zero cs) ≡ chunks_sum cs
retain-sum [] = refl
retain-sum (c ∷ cs) = ground (arith, retain-sum cs)

length-set_at :
    (i : ℕ) (x : UnlockChunk) (cs : List UnlockChunk) → length (set_at i x cs) ≡ length cs
length-set_at i x [] = refl
length-set_at zero x (c ∷ cs) = refl
length-set_at (suc i) x (c ∷ cs) = omega (arith, length-set_at i x cs)

length-retain : (cs : List UnlockChunk) → length (retain_non_zero cs) ≤ length cs
length-retain [] = omega arith
length-retain (c ∷ cs) = ground (arith, length-retain cs)

length-slash_chunks :
    (part : ℕ → ℕ) (proportional : Bool) (minimum : ℕ) (is : List ℕ) (s : Slashing)
    → length (slash_chunks part proportional minimum is s).chunks ≡ length s.chunks
length-slash_chunks part proportional minimum [] s = refl
length-slash_chunks part proportional minimum (i ∷ is) s =
    go (chunk_at i s.chunks) (λ s'. length-slash_chunks part proportional minimum is s') refl
  where
    go :
        (o : Option UnlockChunk)
        → ((s' : Slashing)
            → length (slash_chunks part proportional minimum is s').chunks ≡ length s'.chunks)
        → chunk_at i s.chunks ≡ o
        → length (slash_chunks part proportional minimum (i ∷ is) s).chunks ≡ length s.chunks
    go none rest e = ground (arith, e)
    go (some c) rest e =
        let value = (slash_out_of part proportional minimum c.value s.remaining s.total).0 in
        ground (
          arith,
          e,
          rest (slash_chunk part proportional minimum i c s),
          length-set_at i (record c { value = value }) s.chunks,
        )

-- A slash adds no chunk.
pub slash-length :
    (ratio : ℕ → ℕ → ℕ → ℕ) (bonding_duration amount minimum_balance era : ℕ) (l : StakingLedger)
    → length (slash ratio bonding_duration amount minimum_balance era l).0.unlocking
      ≤ length l.unlocking
unfolding slash
slash-length ratio bonding_duration amount minimum_balance era l =
    let a = affected (era + 1 + bonding_duration) l in
    let part = ratio amount a.0 in
    let proportional = ltb amount a.0 in
    let first = slash_out_of part proportional minimum_balance l.active amount l.total in
    let s : Slashing = record {
      chunks = l.unlocking;
      remaining = first.1;
      total = first.2;
      slashed = [];
    } in
    ground (
      arith,
      length-slash_chunks part proportional minimum_balance a.1 s,
      length-retain (slash_chunks part proportional minimum_balance a.1 s).chunks,
    )

-- The books of a slash, whatever the ratio is: the ledger stays sound, and what the slash returns is
-- what it took off the total. The active stake does not grow, and what is left of it is no dust.
pub slash_books :
    (ratio : ℕ → ℕ → ℕ → ℕ) (bonding_duration amount minimum_balance era : ℕ) (l : StakingLedger)
    → Sound l
    → 0 < amount
    → let (l', value, _) = slash ratio bonding_duration amount minimum_balance era l in
      Sound l'
      × (l'.total + value ≡ l.total)
      × (l'.active ≤ l.active)
      × ((l'.active ≡ 0) ⊎ (minimum_balance ≤ l'.active))
unfolding slash
slash_books ratio bonding_duration amount minimum_balance era l (total, fits) positive =
    let a = affected (era + 1 + bonding_duration) l in
    let part = ratio amount a.0 in
    let proportional = ltb amount a.0 in
    let first = slash_out_of part proportional minimum_balance l.active amount l.total in
    let active_books =
      slash_out_of-books part proportional minimum_balance l.active amount l.total
        (chunks_sum l.unlocking) total fits in
    let s : Slashing = record {
      chunks = l.unlocking;
      remaining = first.1;
      total = first.2;
      slashed = [];
    } in
    let s' = slash_chunks part proportional minimum_balance a.1 s in
    let books = slash_chunks-books part proportional minimum_balance first.0 a.1 s active_books.0 in
    ground (arith, active_books, books, retain-sum s'.chunks, positive)

pub slash-Sound :
    (ratio : ℕ → ℕ → ℕ → ℕ) (bonding_duration amount minimum_balance era : ℕ) (l : StakingLedger)
    → Sound l
    → Sound (slash ratio bonding_duration amount minimum_balance era l).0
unfolding slash
slash-Sound ratio bonding_duration amount minimum_balance era l sound =
    elim (Bool-cases (nat_beq amount 0)) [
      | inl zero_slash ↦ rw (zero_slash, slash) sound
      | inr positive ↦
          (slash_books ratio bonding_duration amount minimum_balance era l sound
            (ground (arith, positive))).0
    ]
