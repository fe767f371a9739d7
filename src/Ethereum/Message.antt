-- ===== src/Ethereum/Message.antt =====
-- `ethereum_signable_message` and `eth_recover` of modules/claims/src/lib.rs. The hash function and
-- the recovery of a public key are outside code, and so arguments.
use Prim.Native.Char.{code}
use Prim.Native.String.{String}
use mathlib.Core.List.{reverse}
use blockchain_protocol_v.Common.{
  ℕ, zero, suc, ◌+◌, ◌-◌, ◌*◌, ◌/◌, ◌%◌, ◌≤◌, ◌≡◌, List, [], ◌∷◌, ◌++◌, Option, none, some, nat_beq,
  arith, length, drop, true, false,
}

-- The bytes of an ASCII text.
abbrev pub codes : String → List ℕ
codes String.[] = []
codes (String.◌∷◌ c s) = code c ∷ codes s

-- The digits of a number, the last one first: `while l > 0`, with fuel.
unfoldable pub digits_rev : ℕ → ℕ → List ℕ
digits_rev zero l = []
digits_rev (suc fuel) l = elim (nat_beq l 0) [
  | true ↦ []
  | false ↦ (b'0' + l % 10) ∷ digits_rev fuel (l / 10)
]

abbrev pub message_header : List ℕ
message_header = 0x19 ∷ (codes "Ethereum Signed Message:" ++ 10 ∷ [])

-- The loop takes at most as many rounds as the length that it prints.
unfoldable pub ethereum_signable_message : List ℕ → List ℕ → List ℕ → List ℕ
ethereum_signable_message prefix what extra =
    let l = length prefix + length what + length extra in
    message_header ++ (reverse (digits_rev l l) ++ (prefix ++ (what ++ extra)))

-- The outside functions: `keccak_256` and `secp256k1_ecdsa_recover`.
pub record Crypto (Signature : Type 0) : Type 0 where
  pub keccak_256 : List ℕ → List ℕ
  pub secp256k1_ecdsa_recover : Signature → List ℕ → Option (List ℕ)

-- The address is the hash of the public key without its first twelve bytes.
unfoldable pub eth_recover :
    {Signature : Type 0} → Crypto Signature → List ℕ → Signature → List ℕ → List ℕ → Option (List ℕ)
eth_recover C prefix s what extra =
    let msg = C.keccak_256 (ethereum_signable_message prefix what extra) in
    elim (C.secp256k1_ecdsa_recover s msg) [
      | none ↦ none
      | some key ↦ some (drop 12 (C.keccak_256 key))
    ]

pub value_rev : List ℕ → ℕ
value_rev [] = 0
value_rev (c ∷ cs) = c - b'0' + 10 * value_rev cs

-- With fuel of at least the number the loop ends by its test, and the digits are the number's.
pub digits_rev-value : (fuel l : ℕ) → l ≤ fuel → value_rev (digits_rev fuel l) ≡ l
unfolding value_rev digits_rev
digits_rev-value zero l h = omega arith
digits_rev-value (suc fuel) l h = ground (arith, digits_rev-value fuel (l / 10))
