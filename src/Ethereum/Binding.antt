-- ===== src/Ethereum/Binding.antt =====
-- What a signed message says is what was signed.
use blockchain_protocol_v.Common.{ℕ, ◌+◌, ◌≡◌, refl, List, length, append_injective, ap, arith, All}
use blockchain_protocol_v.Ethereum.Hex.{
  to_ascii_hex, to_ascii_hex_injective, from-to_ascii_hex, IsByte,
}
use blockchain_protocol_v.Ethereum.Message.{ethereum_signable_message, message_header, digits_rev}
use mathlib.Core.List.{reverse}

-- Messages under one prefix for texts of the same lengths are equal only for the same texts.
signable_message_injective :
    (prefix what what' extra extra' : List ℕ)
    → length what ≡ length what'
    → length extra ≡ length extra'
    → ethereum_signable_message prefix what extra ≡ ethereum_signable_message prefix what' extra'
    → (what ≡ what') × (extra ≡ extra')
unfolding ethereum_signable_message
signable_message_injective prefix what what' extra extra' lw le h =
    let size = λ (w e : List ℕ). length prefix + length w + length e in
    let digits = λ (n : ℕ). reverse (digits_rev n n) in
    let same : digits (size what extra) ≡ digits (size what' extra') = rw (lw, le) refl in
    let a = (append_injective message_header message_header _ _ refl h).1 in
    let b =
      (append_injective (digits (size what extra)) (digits (size what' extra')) _ _ (ap length same)
        a).1 in
    let c = (append_injective prefix prefix _ _ refl b).1 in
    append_injective what what' extra extra' lw c

-- A message names one account and one transaction: if the messages for two pairs of an encoded
-- account and a transaction hash are equal, where the accounts' bytes are equally many and the
-- hashes' too, the accounts and the hashes are equal.
pub message_binds :
    (prefix account account' tx tx' : List ℕ)
    → All IsByte account
    → All IsByte account'
    → All IsByte tx
    → All IsByte tx'
    → length account ≡ length account'
    → length tx ≡ length tx'
    → ethereum_signable_message prefix (to_ascii_hex account) (to_ascii_hex tx)
      ≡ ethereum_signable_message prefix (to_ascii_hex account') (to_ascii_hex tx')
    → (account ≡ account') × (tx ≡ tx')
message_binds prefix account account' tx tx' ha ha' ht ht' la lt h =
    let parts =
      signable_message_injective prefix _ _ _ _
        (omega (arith, (from-to_ascii_hex account ha).1, (from-to_ascii_hex account' ha').1))
        (omega (arith, (from-to_ascii_hex tx ht).1, (from-to_ascii_hex tx' ht').1)) h in
    (
      to_ascii_hex_injective account account' ha ha' parts.0,
      to_ascii_hex_injective tx tx' ht ht' parts.1,
    )
