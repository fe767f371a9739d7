-- ===== src/Transactions/Tests.antt =====
-- The theorems of the validation of frame/ethereum/src/lib.rs at a small chain.
use blockchain_protocol_v.Transactions.Priority.{low_tip_ranks_first}
use blockchain_protocol_v.Transactions.Payable.{Payable, Ranked, validated_iff}
use blockchain_protocol_v.Common.{ℕ, ◌≡◌, ◌<◌, ◌↔◌, ◌*◌, true, some, none, [], arith, nat_eq}
use blockchain_protocol_v.Revenue.Whitelist
use blockchain_protocol_v.Transactions.Validate.{
  Config, TransactionData, create, valid, validate_transaction_common, priority_of,
}

abbrev chain : Config
chain = record {
  record_transaction = λ gas data_. true;
  chain_id = 2160;
  block_gas_limit = 4294967295;
  min_gas_price = 7;
  account_basic = λ who. record { nonce = 4; balance = 1000000 };
  gas_to_weight = λ gas. gas * 20;
}

abbrev nobody : Whitelist.State
nobody = record { whitelist = []; admin_account_id = none; events = [] }

abbrev cheap : TransactionData
cheap = record {
  action = create;
  input = [];
  nonce = 4;
  gas_limit = 21000;
  gas_price = some 10;
  max_fee_per_gas = none;
  max_priority_fee_per_gas = none;
  value = 5;
  chain_id = some 2160;
  access_list = [];
}

validated_iff_example :
    (validate_transaction_common chain nobody 1 cheap ≡ valid (4, 18446744073709131616)) ↔ (
      ((price : ℕ) × Payable chain nobody 1 cheap price)
      × (4 ≡ (chain.account_basic 1).nonce)
      × Ranked chain nobody cheap 18446744073709131616)
validated_iff_example =
    validated_iff chain nobody 1 cheap 4 18446744073709131616 (omega arith) (omega arith)

-- A tip of 3 ranks above one of 10^10.
low_tip_ranks_first_example :
    priority_of chain nobody cheap 10000000000 < priority_of chain nobody cheap 3
low_tip_ranks_first_example =
    low_tip_ranks_first chain nobody cheap cheap 3 10000000000 (omega arith) (omega arith)
      (omega arith) (omega arith)
