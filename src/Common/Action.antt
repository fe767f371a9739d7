-- ===== src/Common/Action.antt =====
-- A pallet function as state passing with an error. What was written before an error stays
-- written, unless the function is under `transactional`.
use mathlib.Core.Path.{◌≡◌, ap, refl}
use mathlib.Core.Bool.{Bool, true, false}
use mathlib.Core.Option.{Option, none, some}
use blockchain_protocol_v.Common.Tests.{if◌then◌else◌}
use blockchain_protocol_v.Common.Errors.{DispatchError, Result, ok, err, ok_or}

abbrev pub Action : Type 0 → Type 0 → Type 0
Action S A = S → Result A × S

module _ {S A : Type 0} where
  abbrev pub pure : A → Action S A
  pure a s = (ok a, s)

  abbrev pub fail : DispatchError → Action S A
  fail e s = (err e, s)

  abbrev pub lift : Result A → Action S A
  lift r s = (r, s)

  abbrev pub gets : (S → A) → Action S A
  gets f s = (ok (f s), s)

  -- `#[frame_support::transactional]`, `with_transaction_result`: an error takes the writes back.
  abbrev pub transactional : Action S A → Action S A
  transactional m s = let (r, s') = m s in elim r [ ok a ↦ (ok a, s') | err e ↦ (err e, s) ]

infixl 5 ◌>>=◌ ◌>>◌
abbrev pub ◌>>=◌ : {S A B : Type 0} → Action S A → (A → Action S B) → Action S B
◌>>=◌ m f s = let (r, s') = m s in elim r [ ok a ↦ f a s' | err e ↦ (err e, s') ]

abbrev pub ◌>>◌ : {S B : Type 0} → Action S (Unit {0}) → Action S B → Action S B
m >> k = m >>= λ _. k

abbrev pub modify : {S : Type 0} → (S → S) → Action S (Unit {0})
modify f s = (ok tt, f s)

-- `ensure!(c, e)`
abbrev pub ensure : {S : Type 0} → Bool → DispatchError → Action S (Unit {0})
ensure c e s = (if c then ok tt else err e, s)

-- `o.ok_or(e)?`
abbrev pub or_fail : {S A : Type 0} → Option A → DispatchError → Action S A
or_fail o e = lift (ok_or o e)

module _ {S A B : Type 0} where
  pub bind_ok :
      (m : Action S A) (f : A → Action S B) (s : S) {a : A} {s' : S}
      → m s ≡ (ok a, s')
      → (m >>= f) s ≡ f a s'
  bind_ok m f s h = ap (λ r. elim r.0 [ ok a ↦ f a r.1 | err e ↦ (err e, r.1) ]) h

  pub bind_err :
      (m : Action S A) (f : A → Action S B) (s : S) {e : DispatchError} {s' : S}
      → m s ≡ (err e, s')
      → (m >>= f) s ≡ (err e, s')
  bind_err m f s h = ap (λ r. elim r.0 [ ok a ↦ f a r.1 | err e ↦ (err e, r.1) ]) h

  -- A step that only reads keeps what holds of the state, and the rest may use what it has read.
  pub reading {ℓ} :
      (P : S → Type ℓ) (s : S) (r : Result A) (next : A → Result B × S)
      → P s
      → ((a : A) → r ≡ ok a → P (next a).1)
      → P (elim r as (λ _. Result B × S) [ ok a ↦ next a | err e ↦ (err e, s) ]).1
  reading P s (ok a) next here rest = rest a refl
  reading P s (err e) next here rest = here

  -- The same for what is said of the result too.
  pub reading_result {ℓ} :
      (P : Result B × S → Type ℓ) (s : S) (r : Result A) (next : A → Result B × S)
      → ((e : DispatchError) → P (err e, s))
      → ((a : A) → r ≡ ok a → P (next a))
      → P (elim r as (λ _. Result B × S) [ ok a ↦ next a | err e ↦ (err e, s) ])
  reading_result P s (ok a) next failed rest = rest a refl
  reading_result P s (err e) next failed rest = failed e

module _ {S B : Type 0} where
  pub ensuring {ℓ} :
      (P : S → Type ℓ) (s : S) (c : Bool) (e : DispatchError) (next : Result B × S)
      → P s
      → (c ≡ true → P next.1)
      → P ((ensure c e >> (λ (_ : S). next)) s).1
  ensuring P s true e next here rest = rest refl
  ensuring P s false e next here rest = here

  pub ensuring_result {ℓ} :
      (P : Result B × S → Type ℓ) (s : S) (c : Bool) (e : DispatchError) (next : Result B × S)
      → ((x : DispatchError) → P (err x, s))
      → (c ≡ true → P next)
      → P ((ensure c e >> (λ (_ : S). next)) s)
  ensuring_result P s true e next failed rest = rest refl
  ensuring_result P s false e next failed rest = failed e

  -- A choice by a test, or by whether something is there.
  pub choosing {ℓ} :
      (P : S → Type ℓ) (b : Bool) (x y : Result B × S)
      → (b ≡ true → P x.1)
      → (b ≡ false → P y.1)
      → P (elim b as (λ _. Result B × S) [ true ↦ x | false ↦ y ]).1
  choosing P true x y held failed = held refl
  choosing P false x y held failed = failed refl

  pub branching {ℓ} :
      (P : S → Type ℓ) (b : Bool) (m k : Action S B) (s : S)
      → (b ≡ true → P (m s).1)
      → (b ≡ false → P (k s).1)
      → P ((elim b as (λ _. Action S B) [ true ↦ m | false ↦ k ]) s).1
  branching P true m k s held failed = held refl
  branching P false m k s held failed = failed refl

  pub choosing_some {ℓ} :
      {A : Type 0} (P : S → Type ℓ) (o : Option A) (x : Result B × S) (y : A → Result B × S)
      → (o ≡ none → P x.1)
      → ((a : A) → o ≡ some a → P (y a).1)
      → P (elim o as (λ _. Result B × S) [ none ↦ x | some a ↦ y a ]).1
  choosing_some P none x y nothing something = nothing refl
  choosing_some P (some a) x y nothing something = something a refl

module _ {S A B : Type 0} where
  -- A step after which `P` holds, and a rest that gives `Q` from there.
  pub bind_keeps {ℓ} :
      (P Q : S → Type ℓ) (m : Action S A) (f : A → Action S B) (s : S)
      → P (m s).1
      → ((s' : S) → P s' → Q s')
      → ((a : A) (s' : S) → P s' → Q (f a s').1)
      → Q ((m >>= f) s).1
  bind_keeps P Q m f s here stop rest = go (m s).0 (m s).1 here
    where
      go :
          (r : Result A) (s' : S)
          → P s'
          → Q (elim r as (λ _. Result B × S) [ ok a ↦ f a s' | err e ↦ (err e, s') ]).1
      go (ok a) s' h = rest a s' h
      go (err e) s' h = stop s' h
