-- ===== src/Incentives/Pairs.antt =====
-- `CurrencyId` of primitives/src/lib.rs, and `PairKey` and `PoolId` of modules/incentives/src/lib.rs.
use blockchain_protocol_v.Common.{
  ℕ, ◌<◌, ◌≡◌, ◌≢◌, refl, ◌↔◌, ◌⊎◌, Bool, true, ◌&&◌, Option, none, some, Eq, nat_beq, ltb,
  if◌then◌else◌, arith,
}

pub data CurrencyId : Type 0 where
  clv cusdt dot ceth : CurrencyId

-- The discriminant, by which the derived order and equality go.
abbrev pub discriminant : CurrencyId → ℕ
discriminant clv = 0
discriminant cusdt = 1
discriminant dot = 2
discriminant ceth = 3

abbrev pub currency_beq : CurrencyId → CurrencyId → Bool
currency_beq a b = nat_beq (discriminant a) (discriminant b)

abbrev pub currency_ltb : CurrencyId → CurrencyId → Bool
currency_ltb a b = ltb (discriminant a) (discriminant b)

pub record PairKey : Type 0 where
  pub left : CurrencyId
  pub right : CurrencyId

pub data PoolId : Type 0 where
  dex : PairKey → PoolId

unfoldable pub try_from : CurrencyId → CurrencyId → Option PairKey
try_from first second =
    if currency_beq first second
    then none
    else if currency_ltb first second
    then some (record { left = first; right = second })
    else some (record { left = second; right = first })

pub currency_beq_iff : (a b : CurrencyId) → (currency_beq a b ≡ true) ↔ (a ≡ b)
currency_beq_iff clv b = (λ h. ground arith, λ h. ground arith)
currency_beq_iff cusdt b = (λ h. ground arith, λ h. ground arith)
currency_beq_iff dot b = (λ h. ground arith, λ h. ground arith)
currency_beq_iff ceth b = (λ h. ground arith, λ h. ground arith)

abbrev pub pool_beq : PoolId → PoolId → Bool
pool_beq (dex a) (dex b) = currency_beq a.left b.left && currency_beq a.right b.right

pub pool_beq_iff : (a b : PoolId) → (pool_beq a b ≡ true) ↔ (a ≡ b)
pool_beq_iff (dex a) (dex b) = (
  λ h. ground (arith, currency_beq_iff a.left b.left, currency_beq_iff a.right b.right),
  λ h. ground (arith, currency_beq_iff a.left b.left, currency_beq_iff a.right b.right),
)

instance abbrev pub pool_eq : Eq PoolId
pool_eq = record { beq = pool_beq; beq_iff = pool_beq_iff }

-- What a key for two currencies has to be: there is none for equal ones, and a key has its
-- currencies in increasing order and is one of the two orders of those given.
abbrev pub Canonical : CurrencyId → CurrencyId → Option PairKey → Type 0
Canonical a b none = a ≡ b
Canonical a b (some k) =
    (a ≢ b)
    × (discriminant k.left < discriminant k.right)
    × (((k.left ≡ a) × (k.right ≡ b)) ⊎ ((k.left ≡ b) × (k.right ≡ a)))

-- A pair has one key, whatever the order of its currencies: the two orders give the same result. It
-- is none only for equal currencies, and otherwise has the two currencies in increasing order.
pub try_from-Canonical :
    (a b : CurrencyId) → (try_from a b ≡ try_from b a) × Canonical a b (try_from a b)
unfolding try_from
try_from-Canonical a b = (ground (arith, currency_beq_iff a b), key (try_from a b) refl)
  where
    key : (o : Option PairKey) → try_from a b ≡ o → Canonical a b o
    key none e = ground (arith, currency_beq_iff a b)
    key (some k) e = (
      ground (arith, currency_beq_iff a b),
      ground (arith, currency_beq_iff a b),
      ground (arith, currency_beq_iff a b),
    )

pub try_from_same : (a : CurrencyId) → try_from a a ≡ none
unfolding try_from
try_from_same a = ground (arith, currency_beq_iff a a)
