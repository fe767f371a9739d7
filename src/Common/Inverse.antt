-- ===== src/Common/Inverse.antt =====
-- Two storage maps that are each other's inverse.
use mathlib.Core.Path.{◌≡◌}
use mathlib.Core.Logic.{◌↔◌}
use mathlib.Core.Option.{none, some}
use native.Mathlib.Omega.{arith}
use blockchain_protocol_v.Common.Tests.{Eq}
use blockchain_protocol_v.Common.Storage.{Map, lookup, insert, remove, lookup-insert, lookup-remove}

module _ {A B : Type 0} ⦃ea : Eq A⦄ ⦃eb : Eq B⦄ where
  -- `b` is stored under `a` exactly when `a` is stored under `b`.
  abbrev pub Inverse : Map A B → Map B A → Type 0
  Inverse f g = (a : A) (b : B) → (lookup a f ≡ some b) ↔ (lookup b g ≡ some a)

  -- A pair of which neither was there can be added.
  pub insert-Inverse :
      (a : A) (b : B) (f : Map A B) (g : Map B A)
      → Inverse f g
      → lookup a f ≡ none
      → lookup b g ≡ none
      → Inverse (insert a b f) (insert b a g)
  insert-Inverse a b f g v ha hb x y = (
    λ h. ground (
      arith,
      lookup-insert x a b f,
      lookup-insert y b a g,
      ea.beq_iff x a,
      eb.beq_iff y b,
      (v x y).0,
      (v x b).0,
      h,
    ),
    λ h. ground (
      arith,
      lookup-insert x a b f,
      lookup-insert y b a g,
      ea.beq_iff x a,
      eb.beq_iff y b,
      (v x y).1,
      (v a y).1,
      h,
    ),
  )

  -- A pair that is there can be removed.
  pub remove-Inverse :
      (a : A) (b : B) (f : Map A B) (g : Map B A)
      → Inverse f g
      → lookup b g ≡ some a
      → Inverse (remove a f) (remove b g)
  remove-Inverse a b f g v hb x y = (
    λ h. ground (
      arith,
      lookup-remove x a f,
      lookup-remove y b g,
      ea.beq_iff x a,
      eb.beq_iff y b,
      (v x y).0,
      (v a b).1 hb,
      h,
    ),
    λ h. ground (
      arith,
      lookup-remove x a f,
      lookup-remove y b g,
      ea.beq_iff x a,
      eb.beq_iff y b,
      (v x y).1,
      (v a b).1 hb,
      h,
    ),
  )
