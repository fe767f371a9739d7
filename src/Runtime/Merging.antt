-- ===== src/Runtime/Merging.antt =====
-- `MergeAccountEvm` of runtime/src/impls.rs and the merge of a tuple of modules in
-- modules/traits/src/account.rs, over any balances.
use blockchain_protocol_v.Common.{ℕ, ◌+◌, ◌≤◌, ◌≡◌, ◌≢◌, refl, List, [], ◌∷◌, arith}
use blockchain_protocol_v.Common.Action.{Action, pure, modify, transactional, ◌>>◌}
use blockchain_protocol_v.Common.Errors.{DispatchError, Result, ok, err}

-- `transfer` is the call, which lets the source die.
pub record Balances (Accounts : Type 0) : Type 0 where
  pub free : ℕ → Accounts → ℕ
  pub reserved : ℕ → Accounts → ℕ
  pub unreserve : ℕ → ℕ → Accounts → Accounts
  pub transfer : ℕ → ℕ → ℕ → Accounts → Result Accounts

module _ {Accounts : Type 0} (B : Balances Accounts) where
  abbrev transfer_all : ℕ → ℕ → Action Accounts (Unit {0})
  transfer_all source dest a = elim (B.transfer source dest (B.free source a) a) [
    | ok a' ↦ (ok tt, a')
    | err e ↦ (err e, a)
  ]

  unfoldable pub merge_account_evm : ℕ → ℕ → Action Accounts (Unit {0})
  merge_account_evm source dest =
      transactional
        (modify (λ a. B.unreserve source (B.reserved source a) a) >> transfer_all source dest)

-- The modules one after another, in one transaction.
abbrev pub merge_each :
    {Accounts : Type 0}
    → List (ℕ → ℕ → Action Accounts (Unit {0}))
    → ℕ
    → ℕ
    → Action Accounts (Unit {0})
merge_each [] source dest = pure tt
merge_each (m ∷ ms) source dest = m source dest >> merge_each ms source dest

unfoldable pub merge_tuple :
    {Accounts : Type 0}
    → List (ℕ → ℕ → Action Accounts (Unit {0}))
    → ℕ
    → ℕ
    → Action Accounts (Unit {0})
merge_tuple ms source dest = transactional (merge_each ms source dest)

-- What balances do with the two calls: reserved funds become free, and free funds move.
pub record Laws {Accounts : Type 0} (B : Balances Accounts) : Type 0 where
  pub frees :
      (who amount : ℕ) (a : Accounts)
      → amount ≤ B.reserved who a
      → B.free who (B.unreserve who amount a) ≡ B.free who a + amount
  pub keeps :
      (who other amount : ℕ) (a : Accounts)
      → who ≢ other
      → B.free other (B.unreserve who amount a) ≡ B.free other a
  pub takes :
      {a a' : Accounts} (source dest amount : ℕ)
      → source ≢ dest
      → B.transfer source dest amount a ≡ ok a'
      → B.free source a' + amount ≡ B.free source a
  pub gives :
      {a a' : Accounts} (source dest amount : ℕ)
      → source ≢ dest
      → B.transfer source dest amount a ≡ ok a'
      → B.free dest a' ≡ B.free dest a + amount

module _ {Accounts : Type 0} (B : Balances Accounts) where
  -- Under the laws of the balances, a merge into another account that succeeds leaves the source
  -- nothing free and adds all that it had, free and reserved, to the destination.
  pub merge_moves_all :
      (source dest : ℕ) (a : Accounts)
      → Laws B
      → source ≢ dest
      → (merge_account_evm B source dest a).0 ≡ ok tt
      → let a' = (merge_account_evm B source dest a).1 in
        (B.free source a' ≡ 0)
        × (B.free dest a' ≡ B.free dest a + (B.free source a + B.reserved source a))
  unfolding merge_account_evm
  merge_moves_all source dest a laws apart done =
      go (B.transfer source dest (B.free source t) t) refl
    where
      t : Accounts
      t = B.unreserve source (B.reserved source a) a

      go :
          (r : Result Accounts)
          → B.transfer source dest (B.free source t) t ≡ r
          → let a' = (merge_account_evm B source dest a).1 in
            (B.free source a' ≡ 0)
            × (B.free dest a' ≡ B.free dest a + (B.free source a + B.reserved source a))
      go (err e) h = absurd (ground (arith, h, done))
      go (ok a') h = ground (
        arith,
        h,
        laws.takes source dest (B.free source t) apart h,
        laws.gives source dest (B.free source t) apart h,
        laws.frees source (B.reserved source a) a (omega arith),
        laws.keeps source dest (B.reserved source a) a apart,
      )

-- A merge of modules that fails changes nothing, also where the first modules succeeded.
pub merge_tuple_failed :
    {Accounts : Type 0} (ms : List (ℕ → ℕ → Action Accounts (Unit {0}))) (source dest : ℕ)
    (a : Accounts) {e : DispatchError}
    → (merge_tuple ms source dest a).0 ≡ err e
    → (merge_tuple ms source dest a).1 ≡ a
unfolding merge_tuple
merge_tuple_failed ms source dest a failed = ground (arith, failed)
