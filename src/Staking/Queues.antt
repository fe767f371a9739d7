-- ===== src/Staking/Queues.antt =====
-- The queues of deferred slashes of frame/staking, as eras start.
use mathlib.Core.Path.{subst}
use blockchain_protocol_v.Common.{
  ℕ, zero, suc, ◌+◌, ◌-◌, ◌≤◌, ◌≡◌, refl, Option, none, some, List, [], ◌∷◌, ◌++◌, ◌&&◌, ◌<◌,
  nat_eq, max, ltb, leb, ap, sym, ◌∙◌, arith, if◌then◌else◌,
}
use blockchain_protocol_v.Common.Storage.{Map, lookup, get, remove, lookup-remove}
use blockchain_protocol_v.Staking.Planning.{Chain, SessionConfig}
use blockchain_protocol_v.Staking.Slashing.{UnappliedSlash, apply_slash}
use blockchain_protocol_v.Staking.Types.{State}
use blockchain_protocol_v.Staking.Sessions.{
  apply_each, apply_queue, apply_queues, apply_from, apply_unapplied_slashes,
}

-- The slashes of an era's queue with the era, and those of `count` eras from `era` on.
abbrev pub with_era : ℕ → List UnappliedSlash → List (ℕ × UnappliedSlash)
with_era era [] = []
with_era era (u ∷ queue) = (era, u) ∷ with_era era queue

abbrev pub due : ℕ → ℕ → Map ℕ (List UnappliedSlash) → List (ℕ × UnappliedSlash)
due zero era queues = []
due (suc count) era queues = with_era era (get [] era queues) ++ due count (suc era) queues

abbrev pub apply_all :
    {Origin Accounts Voters : Type 0}
    → SessionConfig Origin Accounts Voters
    → List (ℕ × UnappliedSlash)
    → State Accounts Voters
    → State Accounts Voters
apply_all T [] s = s
apply_all T ((era, u) ∷ slashes) s = apply_all T slashes (apply_slash T.base u era s)

due-remove :
    (n era gone : ℕ) (queues : Map ℕ (List UnappliedSlash))
    → gone < era
    → due n era (remove gone queues) ≡ due n era queues
due-remove zero era gone queues lt = refl
due-remove (suc n) era gone queues lt =
    let same : get [] era (remove gone queues) ≡ get [] era queues =
      ground (arith, lookup-remove era gone queues, lt) in
    rw (same, due-remove n (suc era) gone queues (omega (arith, lt))) refl

module _ {Origin Accounts Voters : Type 0} (T : SessionConfig Origin Accounts Voters) where
  apply_queues-add :
      (m n era : ℕ) (s : Chain Accounts Voters)
      → apply_queues T (m + n) era s ≡ apply_queues T n (era + m) (apply_queues T m era s)
  apply_queues-add zero n era s =
      let counted : 0 + n ≡ n = omega arith in
      let begun : era + 0 ≡ era = omega arith in rw (counted, begun) refl
  apply_queues-add (suc m) n era s =
      let counted : suc m + n ≡ suc (m + n) = omega arith in
      let begun : era + suc m ≡ suc era + m = omega arith in
      rw (counted, begun) (apply_queues-add m n (suc era) (apply_queue T era s))

  apply_queues-earliest :
      (n era : ℕ) (e : Option ℕ) (s : Chain Accounts Voters)
      → apply_queues T n era (record s { earliest_unapplied_slash = e })
        ≡ record (apply_queues T n era s) { earliest_unapplied_slash = e }
  apply_queues-earliest zero era e s = refl
  apply_queues-earliest (suc n) era e s = apply_queues-earliest n (suc era) e (apply_queue T era s)

  -- The queue of an era that slashes are applied up to.
  apply_queues-queue :
      (n era e : ℕ) (s : Chain Accounts Voters)
      → lookup e (apply_queues T n era s).unapplied_slashes ≡ (
          if leb era e
          then (if ltb e (era + n) then none else lookup e s.unapplied_slashes)
          else lookup e s.unapplied_slashes)
  apply_queues-queue zero era e s = ground arith
  apply_queues-queue (suc n) era e s = ground (
    arith,
    apply_queues-queue n (suc era) e (apply_queue T era s),
    lookup-remove e era s.unapplied_slashes,
  )

  apply_from-twice :
      (k k' e : ℕ) (s : Chain Accounts Voters)
      → k ≤ k'
      → apply_from T k' (some (max e k)) (apply_from T k (some e) s) ≡ apply_from T k' (some e) s
  apply_from-twice k k' e s le =
      let m = k - e in
      let n = k' - max e k in
      let x = apply_queues T m e s in
      let begun : e + m ≡ max e k = omega arith in
      let counted : m + n ≡ k' - e = omega arith in
      let capped : max (max e k) k' ≡ max e k' = omega arith in
      let whole : apply_queues T (k' - e) e s ≡ apply_queues T n (max e k) x =
        subst (λ (i : ℕ). apply_queues T (k' - e) e s ≡ apply_queues T n i x) begun
          (subst (λ (i : ℕ). apply_queues T i e s ≡ apply_queues T n (e + m) x) counted
            (apply_queues-add m n e s)) in
      let aside : apply_queues T n (max e k) (apply_from T k (some e) s)
          ≡ record (apply_queues T n (max e k) x) { earliest_unapplied_slash = some (max e k) } =
        apply_queues-earliest n (max e k) (some (max e k)) x in
      ap
        (λ (t : Chain Accounts Voters). record t {
          earliest_unapplied_slash = some (max (max e k) k');
        })
        aside
      ∙ (ap
            (λ (t : Chain Accounts Voters). record t {
              earliest_unapplied_slash = some (max (max e k) k');
            })
            (sym whole)
          ∙ ap
              (λ (i : ℕ). record (apply_queues T (k' - e) e s) {
                earliest_unapplied_slash = some i;
              })
              capped)

  -- Each slash that is due, with its era, is applied in the order of the eras and their queues.
  apply_each-all :
      (era : ℕ) (queue : List UnappliedSlash) (s : State Accounts Voters)
      → apply_each T era queue s ≡ apply_all T (with_era era queue) s
  apply_each-all era [] s = refl
  apply_each-all era (u ∷ queue) s = apply_each-all era queue (apply_slash T.base u era s)

  apply_all-append :
      (xs ys : List (ℕ × UnappliedSlash)) (s : State Accounts Voters)
      → apply_all T (xs ++ ys) s ≡ apply_all T ys (apply_all T xs s)
  apply_all-append [] ys s = refl
  apply_all-append ((era, u) ∷ xs) ys s = apply_all-append xs ys (apply_slash T.base u era s)

  apply_queues-staking :
      (n era : ℕ) (s : Chain Accounts Voters)
      → (apply_queues T n era s).staking ≡ apply_all T (due n era s.unapplied_slashes) s.staking
  apply_queues-staking zero era s = refl
  apply_queues-staking (suc n) era s =
      let queue = get [] era s.unapplied_slashes in
      let rest = due n (suc era) s.unapplied_slashes in
      apply_queues-staking n (suc era) (apply_queue T era s)
      ∙ (ap (λ (xs : List (ℕ × UnappliedSlash)). apply_all T xs (apply_each T era queue s.staking))
            (due-remove n (suc era) era s.unapplied_slashes (omega arith))
          ∙ (ap (λ (p : State Accounts Voters). apply_all T rest p)
                (apply_each-all era queue s.staking)
              ∙ sym (apply_all-append (with_era era queue) rest s.staking)))

  deferred_composes :
      (era later : ℕ) (s : Chain Accounts Voters)
      → era ≤ later
      → apply_unapplied_slashes T later (apply_unapplied_slashes T era s)
        ≡ apply_unapplied_slashes T later s
  unfolding apply_unapplied_slashes
  deferred_composes era later s le = go s.earliest_unapplied_slash refl
    where
      k : ℕ
      k = era - T.slash_defer_duration

      k' : ℕ
      k' = later - T.slash_defer_duration

      go :
          (o : Option ℕ)
          → s.earliest_unapplied_slash ≡ o
          → apply_from T k'
              (apply_from T k s.earliest_unapplied_slash s).earliest_unapplied_slash
              (apply_from T k s.earliest_unapplied_slash s)
            ≡ apply_from T k' s.earliest_unapplied_slash s
      go none h =
          let same : apply_from T k s.earliest_unapplied_slash s ≡ s =
            ap (λ (o : Option ℕ). apply_from T k o s) h in
          ap (λ (t : Chain Accounts Voters). apply_from T k' t.earliest_unapplied_slash t) same
      go (some e) h =
          subst
            (λ (o : Option ℕ).
              apply_from T k' (apply_from T k o s).earliest_unapplied_slash (apply_from T k o s)
              ≡ apply_from T k' o s)
            (sym h) (apply_from-twice k k' e s (omega (arith, le)))

  -- At the start of an era the slashes that wait for an earlier era than that less the defer duration
  -- are applied, each of them, in the order of the eras and of their queues, and no other; their
  -- queues are empty then and the other ones as they were. A later start applies none of them again
  -- and gives what it alone would have given.
  pub deferred_applied :
      (active_era later earliest : ℕ) (s : Chain Accounts Voters)
      → s.earliest_unapplied_slash ≡ some earliest
      → active_era ≤ later
      → let keep_from = active_era - T.slash_defer_duration in
        let s' = apply_unapplied_slashes T active_era s in
        (s'.staking
          ≡ apply_all T (due (keep_from - earliest) earliest s.unapplied_slashes) s.staking)
        × ((era : ℕ)
            → lookup era s'.unapplied_slashes ≡ (
                if leb earliest era && ltb era keep_from
                then none
                else lookup era s.unapplied_slashes))
        × (s'.earliest_unapplied_slash ≡ some (max earliest keep_from))
        × (apply_unapplied_slashes T later s' ≡ apply_unapplied_slashes T later s)
  unfolding apply_unapplied_slashes
  deferred_applied active_era later earliest s h le =
      let keep_from = active_era - T.slash_defer_duration in
      let n = keep_from - earliest in
      (
        ap (λ (o : Option ℕ). (apply_from T keep_from o s).staking) h
            ∙ apply_queues-staking n earliest s,
        λ era. ground (arith, h, apply_queues-queue n earliest era s),
        ground (arith, h),
        deferred_composes active_era later s le,
      )
