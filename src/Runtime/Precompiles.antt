-- ===== src/Runtime/Precompiles.antt =====
-- `CloverPrecompiles` of runtime/src/precompiles.rs. The four precompiled contracts and how a number
-- makes an address come from outside the repository.
use blockchain_protocol_v.Common.{
  ℕ, ◌≡◌, Bool, false, ◌||◌, Option, none, some, List, [], ◌∷◌, map, Eq, ◌==◌, if◌then◌else◌,
  is_some, arith,
}

module _ {Address Handle Result : Type 0} ⦃e : Eq Address⦄ (hash : ℕ → Address)
    (ec_recover sha256 ripemd160 identity : Handle → Result) where
  unfoldable pub used_addresses : List Address
  used_addresses = map hash (1 ∷ 2 ∷ 3 ∷ 4 ∷ [])

  unfoldable pub execute_precompile : Address → Handle → Option Result
  execute_precompile a handle =
      if a == hash 1
      then some (ec_recover handle)
      else if a == hash 2
      then some (sha256 handle)
      else if a == hash 3
      then some (ripemd160 handle)
      else if a == hash 4
      then some (identity handle)
      else none

  abbrev pub contains_address : Address → List Address → Bool
  contains_address a [] = false
  contains_address a (b ∷ bs) = a == b || contains_address a bs

  unfoldable pub is_precompile : Address → Bool
  is_precompile a = contains_address a used_addresses

  -- An address is a precompile's exactly when a call of it is executed by one.
  pub executes_precompiles :
      (a : Address) (handle : Handle) → is_some (execute_precompile a handle) ≡ is_precompile a
  unfolding execute_precompile is_precompile used_addresses
  executes_precompiles a handle = ground arith
