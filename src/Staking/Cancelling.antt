-- ===== src/Staking/Cancelling.antt =====
-- Which deferred slashes a cancellation in frame/staking leaves.
use blockchain_protocol_v.Common.{
  ℕ, zero, suc, ◌+◌, ◌-◌, ◌≤◌, ◌<◌, ◌≡◌, refl, true, false, List, [], ◌∷◌, nat_eq, ◌==◌, ap, ◌∙◌,
  arith, if◌then◌else◌,
}
use blockchain_protocol_v.Common.Errors.{ok}
use blockchain_protocol_v.Common.Storage.{insert, get, get-insert}
use blockchain_protocol_v.Staking.Deferral.{
  is_sorted_and_unique, remove_at, remove_indices, cancel_deferred_slash,
}
use blockchain_protocol_v.Staking.Planning.{Chain, SessionConfig}
use blockchain_protocol_v.Staking.Roles.{contains}

-- The list, numbered from `n` on, without the entries whose number is among the indices.
abbrev pub without : {A : Type 0} → ℕ → List ℕ → List A → List A
without n indices [] = []
without n indices (x ∷ xs) =
    let rest = without (suc n) indices xs in if contains n indices then rest else x ∷ rest

not_contained :
    (n i : ℕ) (indices : List ℕ)
    → n ≤ i
    → is_sorted_and_unique (i ∷ indices) ≡ true
    → contains n indices ≡ false
not_contained n i [] le sorted = refl
not_contained n i (j ∷ indices) le sorted =
    ground (
      arith,
      sorted,
      not_contained n j indices (ground (arith, sorted, le)) (ground (arith, sorted)),
    )

sorted_rest :
    (i : ℕ) (indices : List ℕ)
    → is_sorted_and_unique (i ∷ indices) ≡ true
    → is_sorted_and_unique indices ≡ true
sorted_rest i [] sorted = refl
sorted_rest i (j ∷ indices) sorted = ground (arith, sorted)

-- All of the indices are at least `r`.
abbrev FromOn : ℕ → List ℕ → Type 0
FromOn r [] = r ≤ r
FromOn r (i ∷ _) = r ≤ i

sorted_above :
    (i : ℕ) (indices : List ℕ) → is_sorted_and_unique (i ∷ indices) ≡ true → FromOn (suc i) indices
sorted_above i [] sorted = omega arith
sorted_above i (j ∷ indices) sorted = ground (arith, sorted)

from_on : (r i : ℕ) (indices : List ℕ) → r ≤ i → FromOn (suc i) indices → FromOn (suc r) indices
from_on r i [] le above = omega arith
from_on r i (j ∷ indices) le above = omega (arith, le, above)

from_zero : (indices : List ℕ) → FromOn 0 indices
from_zero [] = omega arith
from_zero (i ∷ indices) = omega arith

module _ {A : Type 0} where
  without_below :
      (n i : ℕ) (indices : List ℕ) (xs : List A)
      → i < n
      → without n (i ∷ indices) xs ≡ without n indices xs
  without_below n i indices [] lt = refl
  without_below n i indices (x ∷ xs) lt =
      ground (arith, lt, without_below (suc n) i indices xs (omega (arith, lt)))

  without-remove_at :
      (r k i : ℕ) (indices : List ℕ) (xs : List A)
      → i ≡ r + k
      → is_sorted_and_unique (i ∷ indices) ≡ true
      → without (suc r) indices (remove_at k xs) ≡ without r (i ∷ indices) xs
  without-remove_at r zero i indices [] at sorted = refl
  without-remove_at r (suc k) i indices [] at sorted = refl
  without-remove_at r zero i indices (x ∷ xs) at sorted =
      ground (arith, at, without_below (suc r) i indices xs (omega (arith, at)))
  without-remove_at r (suc k) i indices (x ∷ xs) at sorted = ground (
    arith,
    at,
    not_contained (suc r) i indices (omega (arith, at)) sorted,
    not_contained r i indices (omega (arith, at)) sorted,
    without-remove_at (suc r) k i indices xs (omega (arith, at)) sorted,
  )

  remove_indices-without :
      (r : ℕ) (indices : List ℕ) (xs : List A)
      → is_sorted_and_unique indices ≡ true
      → FromOn r indices
      → remove_indices r indices xs ≡ without r indices xs
  remove_indices-without r [] [] sorted on = refl
  remove_indices-without r [] (x ∷ xs) sorted on =
      let here : is_sorted_and_unique [] ≡ true = refl in
      ap (λ (ys : List A). x ∷ ys) (remove_indices-without (suc r) [] xs here (omega arith))
  remove_indices-without r (i ∷ indices) xs sorted on =
      remove_indices-without (suc r) indices (remove_at (i - r) xs) (sorted_rest i indices sorted)
        (from_on r i indices on (sorted_above i indices sorted))
      ∙ without-remove_at r (i - r) i indices xs (omega (arith, on)) sorted

module _ {Origin Accounts Voters : Type 0} (T : SessionConfig Origin Accounts Voters) where
  -- A cancellation that succeeds is by an origin that may cancel. It leaves in the era's queue the
  -- slashes whose positions it was not given, in their order, and the queues of other eras, the
  -- ledgers and all else of the stakers as they were.
  pub cancel_sound :
      (origin : Origin) (era : ℕ) (indices : List ℕ) (s : Chain Accounts Voters)
      → (cancel_deferred_slash T origin era indices s).0 ≡ ok tt
      → let s' = (cancel_deferred_slash T origin era indices s).1 in
        (T.is_slash_cancel_origin origin ≡ true)
        × ((e : ℕ)
            → get [] e s'.unapplied_slashes ≡ (
                if e == era
                then without 0 indices (get [] era s.unapplied_slashes)
                else get [] e s.unapplied_slashes))
        × (s'.staking ≡ s.staking)
  unfolding cancel_deferred_slash
  cancel_sound origin era indices s done =
      let queue = get [] era s.unapplied_slashes in
      let sorted : is_sorted_and_unique indices ≡ true = ground (arith, done) in
      let cut : remove_indices 0 indices queue ≡ without 0 indices queue =
        remove_indices-without 0 indices queue sorted (from_zero indices) in
      let written : (cancel_deferred_slash T origin era indices s).1.unapplied_slashes
          ≡ insert era (without 0 indices queue) s.unapplied_slashes =
        ground (arith, done, cut) in
      (
        ground (arith, done),
        λ e. rw written (get-insert [] e era (without 0 indices queue) s.unapplied_slashes),
        ground (arith, done),
      )
