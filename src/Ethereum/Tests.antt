-- ===== src/Ethereum/Tests.antt =====
-- The theorems of the messages of modules/claims/src at small inputs.
use blockchain_protocol_v.Ethereum.Binding.{message_binds}
use blockchain_protocol_v.Ethereum.Message.{value_rev, digits_rev, codes, digits_rev-value}
use blockchain_protocol_v.Ethereum.Hex.{IsByte}
use blockchain_protocol_v.Common.{ℕ, ◌≡◌, refl, [], ◌∷◌, arith, All, List}

abbrev two_bytes : List ℕ
two_bytes = 175 ∷ 3 ∷ []

bytes : All IsByte two_bytes
bytes = (omega arith, (omega arith, tt))

digits_rev-value_example : value_rev (digits_rev 1024 1024) ≡ 1024
digits_rev-value_example = digits_rev-value 1024 1024 (omega arith)

message_binds_example : (two_bytes ≡ two_bytes) × (two_bytes ≡ two_bytes)
message_binds_example =
    message_binds (codes "Clover evm:") two_bytes two_bytes two_bytes two_bytes bytes bytes bytes
      bytes refl refl refl
