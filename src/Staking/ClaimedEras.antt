-- ===== src/Staking/ClaimedEras.antt =====
-- The list of claimed eras of a ledger of frame/staking: what is inserted is found again.
use mathlib.Core.Path.{subst}
use blockchain_protocol_v.Common.{
  pair_eq, ℕ, ◌≤◌, ◌≡◌, refl, Bool, true, ◌&&◌, Option, none, some, List, [], ◌∷◌, nat_eq, leb,
  arith,
}
use blockchain_protocol_v.Staking.Payouts.{retain_from, insert_era}

-- No era is below the first one that is kept.
abbrev pub all_from : ℕ → List ℕ → Bool
all_from first [] = true
all_from first (x ∷ xs) = leb first x && all_from first xs

pub retain_from-all : (first : ℕ) (xs : List ℕ) → all_from first (retain_from first xs) ≡ true
retain_from-all first [] = refl
retain_from-all first (x ∷ xs) = ground (arith, retain_from-all first xs)

pub all-retain_from :
    (first : ℕ) (xs : List ℕ) → all_from first xs ≡ true → retain_from first xs ≡ xs
all-retain_from first [] all = refl
all-retain_from first (x ∷ xs) all = ground (arith, all-retain_from first xs, all)

pub insert_era-all :
    (era first : ℕ) (xs ys : List ℕ)
    → first ≤ era
    → all_from first xs ≡ true
    → insert_era era xs ≡ some ys
    → all_from first ys ≡ true
insert_era-all era first [] ys le all h =
    let whole : era ∷ [] ≡ ys = ground (arith, h) in
    subst (λ zs. all_from first zs ≡ true) whole (ground arith)
insert_era-all era first (x ∷ xs) ys le all h =
    go (insert_era era xs) (λ zs. insert_era-all era first xs zs le) refl
  where
    go :
        (o : Option (List ℕ))
        → ((zs : List ℕ)
            → all_from first xs ≡ true
            → insert_era era xs ≡ some zs
            → all_from first zs ≡ true)
        → insert_era era xs ≡ o
        → all_from first ys ≡ true
    go none rest e = ground (arith, h, e, all)
    go (some zs) rest e = ground (arith, h, e, all, rest zs)

-- An era that was inserted is found from then on.
pub insert_era-found :
    (era : ℕ) (xs ys : List ℕ) → insert_era era xs ≡ some ys → insert_era era ys ≡ none
insert_era-found era [] ys h =
    let whole : era ∷ [] ≡ ys = ground (arith, h) in
    subst (λ zs. insert_era era zs ≡ none) whole (ground arith)
insert_era-found era (x ∷ xs) ys h = go (insert_era era xs) (insert_era-found era xs) refl
  where
    go :
        (o : Option (List ℕ))
        → ((zs : List ℕ) → insert_era era xs ≡ some zs → insert_era era zs ≡ none)
        → insert_era era xs ≡ o
        → insert_era era ys ≡ none
    go none rest e = ground (arith, h, e)
    go (some zs) rest e = ground (arith, h, e, rest zs)
