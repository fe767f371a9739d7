-- ===== src/Revenue/Members.antt =====
-- Who is on the whitelist of frame/pallet-revenue/src/lib.rs.
use blockchain_protocol_v.Common.{
  ℕ, ◌≡◌, refl, Bool, false, not, ◌&&◌, ◌||◌, List, [], ◌∷◌, nat_eq, nat_beq, arith, Bool-cases,
  inl, inr, true,
}
use blockchain_protocol_v.Common.Storage.{lookup-insert, lookup-remove}
use blockchain_protocol_v.Frame.{Origins}
use blockchain_protocol_v.Revenue.Whitelist.{
  State, add_address, remove_address, for_each, add_addresses, remove_addresses, is_in_white_list,
}

abbrev pub member : ℕ → List ℕ → Bool
member a [] = false
member a (x ∷ xs) = let rest = member a xs in nat_beq a x || rest

add_address_in :
    (a x : ℕ) (s : State)
    → is_in_white_list a (add_address x s) ≡ (nat_beq a x || is_in_white_list a s)
unfolding is_in_white_list add_address
add_address_in a x s = ground (arith, lookup-insert a x true s.whitelist)

remove_address_in :
    (a x : ℕ) (s : State)
    → is_in_white_list a (remove_address x s) ≡ (not (nat_beq a x) && is_in_white_list a s)
unfolding is_in_white_list remove_address
remove_address_in a x s = ground (arith, lookup-remove a x s.whitelist)

add_all_in :
    (a : ℕ) (xs : List ℕ) (s : State)
    → is_in_white_list a (for_each add_address xs s) ≡ (member a xs || is_in_white_list a s)
add_all_in a [] s = refl
add_all_in a (x ∷ xs) s = ground (arith, add_all_in a xs (add_address x s), add_address_in a x s)

remove_all_in :
    (a : ℕ) (xs : List ℕ) (s : State)
    → is_in_white_list a (for_each remove_address xs s)
      ≡ (not (member a xs) && is_in_white_list a s)
remove_all_in a [] s = refl
remove_all_in a (x ∷ xs) s =
    ground (arith, remove_all_in a xs (remove_address x s), remove_address_in a x s)

module _ {Origin : Type 0} (O : Origins Origin) where
  -- After `add_addresses` an address is on the whitelist exactly when it was before or root asked
  -- for it; after `remove_addresses`, exactly when it was before and root did not ask for it. The
  -- same addresses again, and addresses named twice, make no difference.
  pub whitelist_members :
      (origin : Origin) (a : ℕ) (xs : List ℕ) (s : State)
      → (is_in_white_list a (add_addresses O origin xs s).1
          ≡ ((O.is_root origin && member a xs) || is_in_white_list a s))
        × (is_in_white_list a (remove_addresses O origin xs s).1
            ≡ (not (O.is_root origin && member a xs) && is_in_white_list a s))
  unfolding add_addresses remove_addresses
  whitelist_members origin a xs s = elim (Bool-cases (O.is_root origin)) [
    | inl root ↦ (ground (arith, add_all_in a xs s), ground (arith, remove_all_in a xs s))
    | inr other ↦ (ground arith, ground arith)
  ]
