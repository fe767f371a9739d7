-- ===== src/Registry/Synced.antt =====
-- The two maps of modules/asset-config/src/lib.rs stay synced.
use blockchain_protocol_v.Common.{
  ◌&&◌, ◌⊎◌, ℕ, Option, none, some, List, [], ◌∷◌, Eq, ◌≡◌, refl, arith, inl, inr, Bool-cases, ◌==◌,
  if◌then◌else◌, ◌⊎◌,
}
use blockchain_protocol_v.Common.Inverse.{Inverse, insert-Inverse}
use blockchain_protocol_v.Common.Storage.{
  insert, lookup, lookup-insert, lookup-remove, lookup-insert_fresh, insert,
}
use blockchain_protocol_v.Frame.{Origins}
use blockchain_protocol_v.Registry.AssetConfig.{
  State, get_asset_location, get_asset_id, get_units_per_second, set_fee_rate,
  register_asset_location,
}

pub data Call (AssetId AssetLocation : Type 0) : Type 0 where
  set_fee_rate_call : AssetId → Option ℕ → Call AssetId AssetLocation
  register_asset_location_call : AssetLocation → AssetId → Call AssetId AssetLocation

module _ {Origin AssetId AssetLocation : Type 0} ⦃ei : Eq AssetId⦄ ⦃el : Eq AssetLocation⦄
    (O : Origins Origin) where
  unfoldable pub step :
      State AssetId AssetLocation
      → Origin × Call AssetId AssetLocation
      → State AssetId AssetLocation
  step s (origin, set_fee_rate_call asset_id fee_rate) =
      (set_fee_rate O origin asset_id fee_rate s).1
  step s (origin, register_asset_location_call location asset_id) =
      (register_asset_location O origin location asset_id s).1

  unfoldable pub run :
      State AssetId AssetLocation
      → List (Origin × Call AssetId AssetLocation)
      → State AssetId AssetLocation
  run s [] = s
  run s (call ∷ calls) = run (step s call) calls

  -- A registration that changed the maps.
  pub record Registered (location : AssetLocation) (asset_id : AssetId)
      (s s' : State AssetId AssetLocation) : Type 0 where
    pub new_id : lookup asset_id s.asset_id_location ≡ none
    pub new_location : lookup location s.asset_location_id ≡ none
    pub locations : s'.asset_id_location ≡ insert asset_id location s.asset_id_location
    pub ids : s'.asset_location_id ≡ insert location asset_id s.asset_location_id

  pub register-cases :
      (origin : Origin) (location : AssetLocation) (asset_id : AssetId)
      (s : State AssetId AssetLocation)
      → ((register_asset_location O origin location asset_id s).1 ≡ s)
        ⊎ Registered location asset_id s (register_asset_location O origin location asset_id s).1
  unfolding register_asset_location get_asset_location get_asset_id
  register-cases origin location asset_id s =
      go (lookup asset_id s.asset_id_location) (lookup location s.asset_location_id) refl refl
    where
      go :
          (i : Option AssetLocation) (j : Option AssetId)
          → lookup asset_id s.asset_id_location ≡ i
          → lookup location s.asset_location_id ≡ j
          → ((register_asset_location O origin location asset_id s).1 ≡ s)
            ⊎ Registered location asset_id s
                (register_asset_location O origin location asset_id s).1
      go (some i) j e f = inl (ground arith)
      go none (some j) e f = inl (ground arith)
      go none none e f = elim (Bool-cases (O.is_root origin)) [
        | inl root ↦
            inr (record {
              new_id = e;
              new_location = f;
              locations = ground arith;
              ids = ground arith;
            })
        | inr refused ↦ inl (ground arith)
      ]

  set_fee_rate-keeps :
      (origin : Origin) (asset_id : AssetId) (fee_rate : Option ℕ) (s : State AssetId AssetLocation)
      → let s' = (set_fee_rate O origin asset_id fee_rate s).1 in
        (s'.asset_id_location ≡ s.asset_id_location) × (s'.asset_location_id ≡ s.asset_location_id)
  unfolding set_fee_rate
  set_fee_rate-keeps origin asset_id fee_rate s = (ground arith, ground arith)

  -- `AssetIdLocation` and `AssetLocationId` agree.
  abbrev pub Synced : State AssetId AssetLocation → Type 0
  Synced s = Inverse s.asset_id_location s.asset_location_id

  step-Synced :
      (s : State AssetId AssetLocation) (call : Origin × Call AssetId AssetLocation)
      → Synced s
      → Synced (step s call)
  unfolding step
  step-Synced s (origin, set_fee_rate_call asset_id fee_rate) v =
      let k = set_fee_rate-keeps origin asset_id fee_rate s in rw (k.0, k.1) v
  step-Synced s (origin, register_asset_location_call location asset_id) v =
      elim (register-cases origin location asset_id s) [
        | inl same ↦ rw same v
        | inr r ↦
            rw (r.locations, r.ids)
              (insert-Inverse asset_id location s.asset_id_location s.asset_location_id v r.new_id
                r.new_location)
      ]

  -- Any calls by any origins keep the two maps synced: an asset is stored with a location exactly
  -- when the location is stored with the asset.
  pub run-Synced :
      (s : State AssetId AssetLocation) (calls : List (Origin × Call AssetId AssetLocation))
      → Synced s
      → Synced (run s calls)
  unfolding run
  run-Synced s [] v = v
  run-Synced s (call ∷ calls) v = run-Synced (step s call) calls (step-Synced s call v)

  step-located :
      (s : State AssetId AssetLocation) (call : Origin × Call AssetId AssetLocation)
      (asset_id : AssetId) {location : AssetLocation}
      → get_asset_location asset_id s ≡ some location
      → get_asset_location asset_id (step s call) ≡ some location
  unfolding step get_asset_location
  step-located s (origin, set_fee_rate_call other fee_rate) asset_id h =
      rw (set_fee_rate-keeps origin other fee_rate s).0 h
  step-located s (origin, register_asset_location_call place other) asset_id h =
      elim (register-cases origin place other s) [
        | inl same ↦ rw same h
        | inr r ↦
            rw (r.locations)
              (lookup-insert_fresh asset_id other place s.asset_id_location h r.new_id)
      ]

  -- A registration is for good: after any calls the asset has its location, and when the maps are
  -- synced the location has its asset.
  pub registered_stays :
      (s : State AssetId AssetLocation) (calls : List (Origin × Call AssetId AssetLocation))
      (asset_id : AssetId) {location : AssetLocation}
      → Synced s
      → get_asset_location asset_id s ≡ some location
      → (get_asset_location asset_id (run s calls) ≡ some location)
        × (get_asset_id location (run s calls) ≡ some asset_id)
  unfolding get_asset_location get_asset_id run
  registered_stays s calls asset_id {location} v h =
      let there = stays s calls h in (there, (run-Synced s calls v asset_id location).0 there)
    where
      stays :
          (t : State AssetId AssetLocation) (cs : List (Origin × Call AssetId AssetLocation))
          → get_asset_location asset_id t ≡ some location
          → get_asset_location asset_id (run t cs) ≡ some location
      stays t [] k = k
      stays t (c ∷ cs) k = stays (step t c) cs (step-located t c asset_id k)

  -- The price of an asset that the trader reads after root set or cleared one: the rate for that
  -- asset, `none` where it was cleared, and the old price for all others.
  pub fee_rate_read :
      (origin : Origin) (asset_id other : AssetId) (fee_rate : Option ℕ)
      (s : State AssetId AssetLocation)
      → get_units_per_second other (set_fee_rate O origin asset_id fee_rate s).1 ≡ (
          if O.is_root origin && (other == asset_id)
          then fee_rate
          else get_units_per_second other s)
  unfolding set_fee_rate get_units_per_second
  fee_rate_read origin asset_id other none s =
      ground (arith, lookup-remove other asset_id s.fee_rate_per_second)
  fee_rate_read origin asset_id other (some rate) s =
      ground (arith, lookup-insert other asset_id (some rate) s.fee_rate_per_second)
