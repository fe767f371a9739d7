-- ===== src/Staking/Window.antt =====
-- The bonded eras of frame/staking, for which offences may still be reported.
use mathlib.Core.Path.{subst}
use blockchain_protocol_v.Common.{
  ℕ, ◌+◌, ◌-◌, ◌≤◌, ◌≡◌, refl, Bool, true, false, Option, none, some, List, [], ◌∷◌, ◌++◌, ltb, ap,
  sym, arith, max, suc, zero,
}
use blockchain_protocol_v.Staking.Planning.{Chain, SessionConfig}
use blockchain_protocol_v.Staking.Sessions.{
  next_active, kept_eras, bond_era, start_era, apply_unapplied_slashes, apply_from, apply_queue,
  apply_queues,
}
use blockchain_protocol_v.Staking.Views.{View, start_era-view}

-- The list is of every era from the first on, up to the last and without it.
abbrev pub FromTo : ℕ → ℕ → List (ℕ × ℕ) → Type 0
FromTo first last [] = first ≡ last
FromTo first last ((era, _) ∷ eras) = (era ≡ first) × FromTo (suc first) last eras

FromTo-snoc :
    (first last session : ℕ) (eras : List (ℕ × ℕ))
    → FromTo first last eras
    → FromTo first (suc last) (eras ++ ((last, session) ∷ []))
FromTo-snoc first last session [] h = (sym h, ap (λ (n : ℕ). suc n) h)
FromTo-snoc first last session (x ∷ eras) h = (h.0, FromTo-snoc (suc first) last session eras h.1)

FromTo-kept :
    (first last k : ℕ) (eras : List (ℕ × ℕ))
    → FromTo first last eras
    → k ≤ last
    → FromTo (max first k) last (kept_eras k eras)
FromTo-kept first last k [] h le = omega (arith, h, le)
FromTo-kept first last k ((era, session) ∷ eras) h le =
    go (ltb era k) refl (FromTo-kept (suc first) last k eras h.1)
  where
    go :
        (b : Bool)
        → ltb era k ≡ b
        → (k ≤ last → FromTo (max (suc first) k) last (kept_eras k eras))
        → FromTo (max first k) last (kept_eras k ((era, session) ∷ eras))
    go true f later =
        let moved : max (suc first) k ≡ max first k = ground (arith, h.0, f) in
        rw f (subst (λ (n : ℕ). FromTo n last (kept_eras k eras)) moved (later le))
    go false f later =
        let stays : first ≡ max first k = ground (arith, h.0, f) in
        rw f (subst (λ (n : ℕ). FromTo n last ((era, session) ∷ eras)) stays h)

module _ {Origin Accounts Voters : Type 0} (T : SessionConfig Origin Accounts Voters) where
  apply_queues-bonded :
      (n era : ℕ) (s : Chain Accounts Voters) → (apply_queues T n era s).bonded_eras ≡ s.bonded_eras
  apply_queues-bonded zero era s = refl
  apply_queues-bonded (suc n) era s = apply_queues-bonded n (suc era) (apply_queue T era s)

  apply_from-bonded :
      (k : ℕ) (o : Option ℕ) (s : Chain Accounts Voters)
      → (apply_from T k o s).bonded_eras ≡ s.bonded_eras
  apply_from-bonded k none s = refl
  apply_from-bonded k (some e) s = apply_queues-bonded (k - e) e s

  bond_era-FromTo :
      (era session : ℕ) (s : Chain Accounts Voters)
      → FromTo (era - 1 - T.base.bonding_duration) era s.bonded_eras
      → FromTo (era - T.base.bonding_duration) (era + 1) (bond_era T era session s).bonded_eras
  unfolding bond_era
  bond_era-FromTo era session s h = go (ltb d era) refl
    where
      d : ℕ
      d = T.base.bonding_duration

      bonded : List (ℕ × ℕ)
      bonded = s.bonded_eras ++ ((era, session) ∷ [])

      all : FromTo (era - 1 - d) (era + 1) bonded
      all =
          let next : suc era ≡ era + 1 = omega arith in
          subst (λ (n : ℕ). FromTo (era - 1 - d) n bonded) next
            (FromTo-snoc (era - 1 - d) era session s.bonded_eras h)

      go :
          (b : Bool)
          → ltb d era ≡ b
          → FromTo (era - d) (era + 1) (bond_era T era session s).bonded_eras
      go true f =
          let first : max (era - 1 - d) (era - d) ≡ era - d = omega arith in
          rw (bond_era, f)
            (subst (λ (n : ℕ). FromTo n (era + 1) (kept_eras (era - d) bonded)) first
              (FromTo-kept (era - 1 - d) (era + 1) (era - d) bonded all (omega arith)))
      go false f =
          let first : era - 1 - d ≡ era - d = ground (arith, f) in
          rw (bond_era, f) (subst (λ (n : ℕ). FromTo n (era + 1) bonded) first all)

  -- The bonded eras stay those of the window: when they are the active era and those before it, as
  -- many as the bonding duration at most and without a gap, then after the start of an era they are
  -- the new active era and those before it.
  pub start_era-Window :
      (session : ℕ) (s : Chain Accounts Voters)
      → let era = next_active s.active_era in
        FromTo (era - 1 - T.base.bonding_duration) era s.bonded_eras
        → let s' = start_era T session s in
          let next = next_active s'.active_era in
          (next ≡ era + 1) × FromTo (next - 1 - T.base.bonding_duration) next s'.bonded_eras
  unfolding start_era apply_unapplied_slashes
  start_era-Window session s h =
      let d = T.base.bonding_duration in
      let era = next_active s.active_era in
      let s₁ : Chain Accounts Voters = record s {
        active_era = some (record { index = era; start = none });
      } in
      let s₂ = bond_era T era session s₁ in
      let s' = start_era T session s in
      let next : next_active s'.active_era ≡ era + 1 =
        ap (λ (v : View). next_active v.3) (start_era-view T session s) in
      let same : s'.bonded_eras ≡ s₂.bonded_eras =
        apply_from-bonded (era - T.slash_defer_duration) s₂.earliest_unapplied_slash s₂ in
      let first : era - d ≡ era + 1 - 1 - d = omega arith in
      (
        next,
        subst (λ (n : ℕ). FromTo (n - 1 - d) n s'.bonded_eras) (sym next)
            (subst (λ (b : List (ℕ × ℕ)). FromTo (era + 1 - 1 - d) (era + 1) b) (sym same)
              (subst (λ (n : ℕ). FromTo n (era + 1) s₂.bonded_eras) first
                (bond_era-FromTo era session s₁ h))),
      )
