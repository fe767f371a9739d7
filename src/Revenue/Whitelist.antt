-- ===== src/Revenue/Whitelist.antt =====
-- frame/pallet-revenue/src/lib.rs: the contracts that take part in the revenue.
use blockchain_protocol_v.Common.{
  ℕ, Bool, true, Option, some, List, [], ◌∷◌, ◌++◌, nat_eq, not, if◌then◌else◌,
}
use blockchain_protocol_v.Common.Action.{Action, modify, ◌>>◌}
use blockchain_protocol_v.Common.Storage.{Map, contains_key, insert, remove}
use blockchain_protocol_v.Frame.{Origins, ensure_root}

pub data Event : Type 0 where
  address_added address_removed address_existed address_not_existed : ℕ → Event

pub record State : Type 0 where
  pub whitelist : Map ℕ Bool
  pub admin_account_id : Option (Option ℕ)
  pub events : List Event

unfoldable pub build : Option ℕ → State → State
build admin_genesis s = record s { admin_account_id = some admin_genesis }

-- The bodies of the two loops.
unfoldable pub add_address : ℕ → State → State
add_address address s =
    if contains_key address s.whitelist
    then record s { events = s.events ++ (address_existed address ∷ []) }
    else record s {
      whitelist = insert address true s.whitelist;
      events = s.events ++ (address_added address ∷ []);
    }

unfoldable pub remove_address : ℕ → State → State
remove_address address s =
    if not (contains_key address s.whitelist)
    then record s { events = s.events ++ (address_not_existed address ∷ []) }
    else record s {
      whitelist = remove address s.whitelist;
      events = s.events ++ (address_removed address ∷ []);
    }

abbrev pub for_each : (ℕ → State → State) → List ℕ → State → State
for_each f [] s = s
for_each f (address ∷ rest) s = for_each f rest (f address s)

module _ {Origin : Type 0} (O : Origins Origin) where
  unfoldable pub add_addresses : Origin → List ℕ → Action State (Unit {0})
  add_addresses origin addresses = do ensure_root O origin; modify (for_each add_address addresses)

  unfoldable pub remove_addresses : Origin → List ℕ → Action State (Unit {0})
  remove_addresses origin addresses = do
    ensure_root O origin
    modify (for_each remove_address addresses)

unfoldable pub is_in_white_list : ℕ → State → Bool
is_in_white_list address s = contains_key address s.whitelist
