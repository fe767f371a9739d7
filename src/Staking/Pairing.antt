-- ===== src/Staking/Pairing.antt =====
-- The stashes and the controllers of frame/staking/src/pallet/mod.rs: `Bonded` and `Ledger` are each
-- other's inverse, and the ledgers keep their books.
use blockchain_protocol_v.Common.{
  ℕ, ◌≤◌, ◌≡◌, ◌↔◌, Option, none, some, nat_eq, length, arith, nat_beq_iff,
}
use blockchain_protocol_v.Common.Storage.{Map, lookup, insert, remove, lookup-insert, lookup-remove}
use blockchain_protocol_v.Staking.Bonding.{max_unlocking_chunks}
use blockchain_protocol_v.Staking.Ledger.{StakingLedger}
use blockchain_protocol_v.Staking.Sound.{Sound}

abbrev pub stash_in : Option StakingLedger → Option ℕ
stash_in none = none
stash_in (some l) = some l.stash

-- A stash is bonded to a controller exactly when the controller's ledger is the stash's.
abbrev pub Paired : Map ℕ ℕ → Map ℕ StakingLedger → Type 0
Paired b m = (stash c : ℕ) → (lookup stash b ≡ some c) ↔ (stash_in (lookup c m) ≡ some stash)

abbrev pub Good : StakingLedger → Type 0
Good l = Sound l × (length l.unlocking ≤ max_unlocking_chunks)

abbrev pub AllGood : Map ℕ StakingLedger → Type 0
AllGood m = (c : ℕ) (l : StakingLedger) → lookup c m ≡ some l → Good l

pub insert-AllGood :
    (c : ℕ) (l : StakingLedger) (m : Map ℕ StakingLedger)
    → AllGood m
    → Good l
    → AllGood (insert c l m)
insert-AllGood c l m all good c' l' h = ground (arith, lookup-insert c' c l m, all c' l', good, h)

pub remove-AllGood : (c : ℕ) (m : Map ℕ StakingLedger) → AllGood m → AllGood (remove c m)
remove-AllGood c m all c' l' h = ground (arith, lookup-remove c' c m, all c' l', h)

-- A ledger is written for the controller that has it.
pub write-Paired :
    (c : ℕ) (l : StakingLedger) (b : Map ℕ ℕ) (m : Map ℕ StakingLedger)
    → Paired b m
    → stash_in (lookup c m) ≡ some l.stash
    → Paired b (insert c l m)
write-Paired c l b m pair here stash c' = (
  λ h. ground (arith, lookup-insert c' c l m, nat_beq_iff c' c, (pair stash c').0, here, h),
  λ h. ground (arith, lookup-insert c' c l m, nat_beq_iff c' c, (pair stash c').1, here, h),
)

-- A new pair.
pub bond-Paired :
    (c : ℕ) (l : StakingLedger) (b : Map ℕ ℕ) (m : Map ℕ StakingLedger)
    → Paired b m
    → lookup l.stash b ≡ none
    → lookup c m ≡ none
    → Paired (insert l.stash c b) (insert c l m)
bond-Paired c l b m pair new_stash new_controller stash c' = (
  λ h. ground (
    arith,
    lookup-insert c' c l m,
    lookup-insert stash l.stash c b,
    nat_beq_iff c' c,
    nat_beq_iff stash l.stash,
    (pair stash c').0,
    (pair stash c).0,
    new_controller,
    h,
  ),
  λ h. ground (
    arith,
    lookup-insert c' c l m,
    lookup-insert stash l.stash c b,
    nat_beq_iff c' c,
    nat_beq_iff stash l.stash,
    (pair stash c').1,
    (pair l.stash c').1,
    new_stash,
    h,
  ),
)

-- A pair that is removed.
pub remove-Paired :
    (stash c : ℕ) (b : Map ℕ ℕ) (m : Map ℕ StakingLedger)
    → Paired b m
    → lookup stash b ≡ some c
    → Paired (remove stash b) (remove c m)
remove-Paired stash c b m pair here stash' c' = (
  λ h. ground (
    arith,
    lookup-remove c' c m,
    lookup-remove stash' stash b,
    nat_beq_iff c' c,
    nat_beq_iff stash' stash,
    (pair stash' c').0,
    (pair stash' c).0,
    (pair stash c).0 here,
    h,
  ),
  λ h. ground (
    arith,
    lookup-remove c' c m,
    lookup-remove stash' stash b,
    nat_beq_iff c' c,
    nat_beq_iff stash' stash,
    (pair stash' c').1,
    (pair stash c').1,
    here,
    h,
  ),
)

-- A stash that moves to a controller which has no ledger.
pub move-Paired :
    (old new : ℕ) (l : StakingLedger) (b : Map ℕ ℕ) (m : Map ℕ StakingLedger)
    → Paired b m
    → lookup old m ≡ some l
    → lookup new m ≡ none
    → Paired (insert l.stash new b) (insert new l (remove old m))
move-Paired old new l b m pair here free stash c' = (
  λ h. ground (
    arith,
    lookup-insert c' new l (remove old m),
    lookup-remove c' old m,
    lookup-insert stash l.stash new b,
    nat_beq_iff c' new,
    nat_beq_iff c' old,
    nat_beq_iff stash l.stash,
    (pair stash c').0,
    here,
    free,
    h,
  ),
  λ h. ground (
    arith,
    lookup-insert c' new l (remove old m),
    lookup-remove c' old m,
    lookup-insert stash l.stash new b,
    nat_beq_iff c' new,
    nat_beq_iff c' old,
    nat_beq_iff stash l.stash,
    (pair stash c').1,
    (pair l.stash c').1,
    (pair l.stash old).1,
    here,
    free,
    h,
  ),
)
