-- ===== src/Runtime/Fees.antt =====
-- `DealWithFees` and `FundBalance` of runtime/src/lib.rs: fees and tips go to the fund. Imbalances are
-- numbers; `resolve_creating` is the currency's.
use blockchain_protocol_v.Common.{
  ℕ, ◌+◌, ◌<◌, ◌≡◌, List, [], ◌∷◌, nat_beq, if◌then◌else◌, u128_mod, saturating_add, arith,
}

module _ {Accounts : Type 0} (resolve_creating : ℕ → ℕ → Accounts → Accounts) (fund_id : ℕ) where
  -- `on_unbalanced` of `OnUnbalanced` drops an imbalance of nothing.
  unfoldable pub fund_on_unbalanced : ℕ → Accounts → Accounts
  fund_on_unbalanced amount a = if nat_beq amount 0 then a else resolve_creating fund_id amount a

  -- `merge` of two imbalances adds them up to the greatest one.
  unfoldable pub on_unbalanceds : List ℕ → Accounts → Accounts
  on_unbalanceds [] a = a
  on_unbalanceds (fees ∷ []) a = fund_on_unbalanced fees a
  on_unbalanceds (fees ∷ tips ∷ _) a = fund_on_unbalanced (saturating_add u128_mod fees tips) a

  -- Fees and tips all go to the fund, where `held` is what the fund holds, a deposit for it adds to
  -- that, and both together fit a `u128`.
  pub fees_reach_fund :
      (held : Accounts → ℕ)
      → ((amount : ℕ) (a : Accounts) → held (resolve_creating fund_id amount a) ≡ held a + amount)
      → (fees tips : ℕ) (a : Accounts) → fees + tips < u128_mod
      → held (on_unbalanceds (fees ∷ tips ∷ []) a) ≡ held a + (fees + tips)
  unfolding on_unbalanceds fund_on_unbalanced
  fees_reach_fund held creates fees tips a fits =
      ground (arith, creates (saturating_add u128_mod fees tips) a)
