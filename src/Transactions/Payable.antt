-- ===== src/Transactions/Payable.antt =====
-- What the validation of frame/ethereum/src/lib.rs asks of a transaction, in exact numbers.
use mathlib.Core.Path.{subst}
use blockchain_protocol_v.Common.{
  ap, sym, ◌∙◌, ℕ, ◌+◌, ◌-◌, ◌*◌, ◌/◌, ◌%◌, ◌≤◌, ◌<◌, ◌≡◌, ◌↔◌, ◌⊎◌, inl, inr, refl, true, false,
  Option, none, some, List, [], ◌∷◌, arith, u64_mod, saturating_add, get_or, min, nat_beq_iff,
  if◌then◌else◌,
}
use blockchain_protocol_v.Revenue.Whitelist
use blockchain_protocol_v.Revenue.Whitelist.{is_in_white_list}
use blockchain_protocol_v.Transactions.Validate.{
  u256_mod, TransactionData, TransactionAction, call, create, valid, Config, to_u64, wrong_chain,
  gas_price_of, fee_of, priority_of, is_lower_priority, validate_payment,
  validate_transaction_common,
}

-- The price that is offered for gas: the legacy one, or else the greatest fee.
abbrev pub Offers : TransactionData → ℕ → Type 0
Offers data_ price =
    (data_.gas_price ≡ some price)
    ⊎ ((data_.gas_price ≡ none) × (data_.max_fee_per_gas ≡ some price))

-- The fee with the tip, without a cap.
abbrev pub cost : TransactionData → ℕ → ℕ
cost data_ price =
    data_.value
    + price * data_.gas_limit
    + get_or 0 data_.max_priority_fee_per_gas * data_.gas_limit

-- What a unit of gas pays the author, up to a `u64`: the tip that is offered, or else what a legacy
-- price is above the base fee.
abbrev pub reward_per_gas : ℕ → TransactionData → ℕ
reward_per_gas base data_ =
    min
      (get_or (elim data_.gas_price [ none ↦ 0 | some price ↦ price - base ])
        data_.max_priority_fee_per_gas)
      (u64_mod - 1)

-- A call with input of a contract that is not on the whitelist is worth half.
abbrev pub scaled : Whitelist.State → TransactionData → ℕ → ℕ
scaled w data_ x = elim data_.action [
  | create ↦ x / 10000
  | call address ↦ elim data_.input [
    | [] ↦ x / 10000
    | _ ∷ _ ↦ if is_in_white_list address w then x / 10000 else x / 20000
  ]
]

module _ (C : Config) (w : Whitelist.State) where
  -- What a valid transaction meets, at a price of gas.
  pub record Payable (origin : ℕ) (data_ : TransactionData) (price : ℕ) : Type 0 where
    pub covered : C.record_transaction (min data_.gas_limit (u64_mod - 1)) data_ ≡ true
    pub chain : (id : ℕ) → data_.chain_id ≡ some id → id ≡ C.chain_id
    pub below : data_.gas_limit < C.block_gas_limit
    pub priced : Offers data_ price
    pub base_fee : C.min_gas_price ≤ price
    pub funded : cost data_ price ≤ (C.account_basic origin).balance

  -- The priority and the weight of the gas add up to the scaled reward, modulo a `u64`.
  abbrev pub Ranked : TransactionData → ℕ → Type 0
  Ranked data_ priority =
      (priority < u64_mod)
      × ((priority + C.gas_to_weight (min data_.gas_limit (u64_mod - 1))) % u64_mod
          ≡ scaled w data_ (reward_per_gas C.min_gas_price data_))

  chain_ok : (o : Option ℕ) → (wrong_chain C o ≡ false) ↔ ((id : ℕ) → o ≡ some id → id ≡ C.chain_id)
  chain_ok none = (λ h id e. cc e, λ h. refl)
  chain_ok (some id) = (
    λ h other e. ground (arith, h, e, nat_beq_iff id C.chain_id),
    λ h. ground (arith, h id refl, nat_beq_iff id C.chain_id),
  )

  capped :
      (a x y balance : ℕ)
      → balance < u256_mod - 1
      → (saturating_add u256_mod a
            (saturating_add u256_mod (min x (u256_mod - 1)) (min y (u256_mod - 1)))
          ≤ balance)
        ↔ (a + x + y ≤ balance)
  capped a x y balance small = (λ h. omega (arith, h, small), λ h. omega (arith, h, small))

  capped_one :
      (a x g balance : ℕ)
      → balance < u256_mod - 1
      → (saturating_add u256_mod a (min x (u256_mod - 1)) ≤ balance) ↔ (a + x + 0 * g ≤ balance)
  capped_one a x g balance small = (λ h. omega (arith, h, small), λ h. omega (arith, h, small))

  wraps :
      (t weight priority : ℕ)
      → t < u64_mod
      → weight < u64_mod
      → (priority ≡ (t + u64_mod - weight) % u64_mod)
        ↔ ((priority < u64_mod) × ((priority + weight) % u64_mod ≡ t))
  wraps t weight priority ft fw =
      (λ h. (omega (arith, h), omega (arith, h, ft, fw)), λ h. omega (arith, h.0, h.1, ft, fw))

  base_tip : TransactionData → ℕ
  base_tip data_ = to_u64 (elim data_.gas_price [ none ↦ 0 | some price ↦ price - C.min_gas_price ])

  offered :
      (data_ : TransactionData) (price : ℕ)
      → Offers data_ price ↔ (gas_price_of C data_ ≡ some (price, base_tip data_))
  unfolding base_tip
  offered data_ price = go data_.gas_price data_.max_fee_per_gas refl refl
    where
      go :
          (o m : Option ℕ)
          → data_.gas_price ≡ o
          → data_.max_fee_per_gas ≡ m
          → Offers data_ price ↔ (gas_price_of C data_ ≡ some (price, base_tip data_))
      go (some p) m e f = (
        λ h. elim h [ inl g ↦ ground (arith, e, g) | inr g ↦ absurd (ground (arith, e, g.0)) ],
        λ h. inl (ground (arith, e, h)),
      )
      go none (some p) e f = (
        λ h. elim h [ inl g ↦ absurd (ground (arith, e, g)) | inr g ↦ ground (arith, e, f, g.1) ],
        λ h. inr (e, ground (arith, e, f, h)),
      )
      go none none e f = (
        λ h. elim h [
          | inl g ↦ absurd (ground (arith, e, g))
          | inr g ↦ absurd (ground (arith, f, g.1))
        ],
        λ h. absurd (ground (arith, e, f, h)),
      )

  only_price :
      (data_ : TransactionData) (pr : ℕ × ℕ)
      → gas_price_of C data_ ≡ some pr
      → pr.1 ≡ base_tip data_
  unfolding base_tip
  only_price data_ pr h = ground (arith, h)

  tipped :
      (data_ : TransactionData) (price : ℕ)
      → (fee_of data_ (price, base_tip data_)).1 ≡ reward_per_gas C.min_gas_price data_
  unfolding base_tip
  tipped data_ price = ground arith

  funds :
      (data_ : TransactionData) (price tip balance : ℕ)
      → balance < u256_mod - 1
      → (saturating_add u256_mod data_.value (fee_of data_ (price, tip)).0 ≤ balance)
        ↔ (cost data_ price ≤ balance)
  funds data_ price tip balance small = go data_.max_priority_fee_per_gas refl
    where
      go :
          (o : Option ℕ)
          → data_.max_priority_fee_per_gas ≡ o
          → (saturating_add u256_mod data_.value (fee_of data_ (price, tip)).0 ≤ balance)
            ↔ (cost data_ price ≤ balance)
      go none e =
          rw e (capped_one data_.value (price * data_.gas_limit) data_.gas_limit balance small)
      go (some t) e =
          rw e (capped data_.value (price * data_.gas_limit) (t * data_.gas_limit) balance small)

  scaled_lem :
      (data_ : TransactionData) (x : ℕ)
      → (x / (if is_lower_priority w data_ then 20000 else 10000) ≡ scaled w data_ x)
        × (scaled w data_ x ≤ x)
  scaled_lem data_ x = go data_.action data_.input refl refl
    where
      go :
          (a : TransactionAction) (i : List ℕ)
          → data_.action ≡ a
          → data_.input ≡ i
          → (x / (if is_lower_priority w data_ then 20000 else 10000) ≡ scaled w data_ x)
            × (scaled w data_ x ≤ x)
      go create i e f = ground (arith, e)
      go (call address) [] e f = ground (arith, e, f)
      go (call address) (b ∷ bs) e f = ground (arith, e, f)

  ranked :
      (data_ : TransactionData) (priority : ℕ)
      → C.gas_to_weight (min data_.gas_limit (u64_mod - 1)) < u64_mod
      → (priority ≡ priority_of C w data_ (reward_per_gas C.min_gas_price data_))
        ↔ Ranked data_ priority
  ranked data_ priority fits =
      let t = reward_per_gas C.min_gas_price data_ in
      let weight = C.gas_to_weight (min data_.gas_limit (u64_mod - 1)) in
      let (same, le) = scaled_lem data_ t in
      let small : t < u64_mod = omega arith in
      subst (λ (x : ℕ). (priority ≡ (x + u64_mod - weight) % u64_mod) ↔ Ranked data_ priority)
        (sym same) (wraps (scaled w data_ t) weight priority (omega (arith, le, small)) fits)

  -- A transaction is valid exactly when its gas covers its data and is below the block's limit, it
  -- names no chain or this one, it offers a price of at least the base fee, and the origin's balance
  -- covers the value with the price and the tip for all of its gas. The nonce is then the origin's,
  -- and the priority with the weight of the gas is, modulo a `u64`, the tip per gas, or what a legacy
  -- price is above the base fee, divided by 10000, or by 20000 for a call with input of a contract
  -- that is not on the whitelist. The balance is below the greatest `U256`, and the weight a `u64`.
  pub validated_iff :
      (origin : ℕ) (data_ : TransactionData) (nonce priority : ℕ)
      → (C.account_basic origin).balance < u256_mod - 1
      → C.gas_to_weight (min data_.gas_limit (u64_mod - 1)) < u64_mod
      → (validate_transaction_common C w origin data_ ≡ valid (nonce, priority)) ↔ (
          ((price : ℕ) × Payable origin data_ price)
          × (nonce ≡ (C.account_basic origin).nonce)
          × Ranked data_ priority)
  unfolding validate_transaction_common validate_payment
  validated_iff origin data_ nonce priority rich light = go (gas_price_of C data_) refl
    where
      balance : ℕ
      balance = (C.account_basic origin).balance

      go :
          (o : Option (ℕ × ℕ))
          → gas_price_of C data_ ≡ o
          → (validate_transaction_common C w origin data_ ≡ valid (nonce, priority)) ↔ (
              ((price : ℕ) × Payable origin data_ price)
              × (nonce ≡ (C.account_basic origin).nonce)
              × Ranked data_ priority)
      go none e = (
        λ h. absurd (ground (arith, h, e)),
        λ h. absurd (ground (arith, e, (offered data_ h.0.0).0 h.0.1.priced)),
      )
      go (some (price, tip)) e =
          let tip_is = only_price data_ (price, tip) e in
          let fund = funds data_ price tip balance rich in
          let rank = ranked data_ priority light in
          let reward : (fee_of data_ (price, tip)).1 ≡ reward_per_gas C.min_gas_price data_ =
            ap (λ (t : ℕ). (fee_of data_ (price, t)).1) tip_is ∙ tipped data_ price in
          (
            λ h. (
              (
                price,
                record {
                  covered = ground (arith, h, e);
                  chain = (chain_ok data_.chain_id).0 (ground (arith, h, e));
                  below = ground (arith, h, e);
                  priced = (offered data_ price).1 (e ∙ ap (λ (t : ℕ). some (price, t)) tip_is);
                  base_fee = ground (arith, h, e);
                  funded = fund.0 (ground (arith, h, e));
                },
              ),
              ground (arith, h, e),
              rank.0 (ground (arith, h, e, reward)),
            ),
            λ h.
                let p = h.0.0 in
                let pay = h.0.1 in
                let same : p ≡ price = ground (arith, e, (offered data_ p).0 pay.priced) in
                let named : wrong_chain C data_.chain_id ≡ false =
                  (chain_ok data_.chain_id).1 pay.chain in
                let paid = fund.1 (subst (λ (n : ℕ). cost data_ n ≤ balance) same pay.funded) in
                let above : C.min_gas_price ≤ price = omega (arith, same, pay.base_fee) in
                let first = rank.1 h.2 in
                ground (arith, e, named, paid, above, reward, first, h.1, pay.covered, pay.below),
          )
