-- ===== src/Ethereum/Hex.antt =====
-- `to_ascii_hex` of modules/claims/src/ethereum_address.rs.
use blockchain_protocol_v.Common.{
  ℕ, ◌+◌, ◌-◌, ◌*◌, ◌/◌, ◌%◌, ◌<◌, ◌≡◌, refl, List, [], ◌∷◌, ltb, if◌then◌else◌, arith, length, All,
  ap,
}

abbrev pub push_nibble : ℕ → ℕ
push_nibble n = if ltb n 10 then b'0' + n else b'a' - 10 + n

unfoldable pub to_ascii_hex : List ℕ → List ℕ
to_ascii_hex [] = []
to_ascii_hex (b ∷ data_rest) = push_nibble (b / 16) ∷ push_nibble (b % 16) ∷ to_ascii_hex data_rest

-- A reader of the lower-case digits.
abbrev pub nibble : ℕ → ℕ
nibble c = if ltb c b'a' then c - b'0' else c - b'a' + 10

pub from_ascii_hex : List ℕ → List ℕ
from_ascii_hex [] = []
from_ascii_hex (h ∷ []) = []
from_ascii_hex (h ∷ l ∷ rest) = (nibble h * 16 + nibble l) ∷ from_ascii_hex rest

abbrev pub IsByte : ℕ → Type 0
IsByte b = b < 256

-- The text of any bytes has two digits for each byte, and reads back as the bytes.
pub from-to_ascii_hex :
    (bytes : List ℕ)
    → All IsByte bytes
    → (from_ascii_hex (to_ascii_hex bytes) ≡ bytes)
      × (length (to_ascii_hex bytes) ≡ 2 * length bytes)
unfolding from_ascii_hex to_ascii_hex
from-to_ascii_hex [] h = (refl, refl)
from-to_ascii_hex (b ∷ rest) h = ground (arith, from-to_ascii_hex rest h.1)

pub to_ascii_hex_injective :
    (xs ys : List ℕ) → All IsByte xs → All IsByte ys → to_ascii_hex xs ≡ to_ascii_hex ys → xs ≡ ys
to_ascii_hex_injective xs ys hx hy e =
    cc (ap from_ascii_hex e, (from-to_ascii_hex xs hx).0, (from-to_ascii_hex ys hy).0)
