-- ===== src/Revenue/Tests.antt =====
-- The theorem of the wallet's books at a small chain.
use blockchain_protocol_v.Common.{
  ℕ, ◌+◌, ◌-◌, false, some, none, [], ◌∷◌, nat_eq, nat_beq, List, leb, if◌then◌else◌,
}
use blockchain_protocol_v.Common.Errors.{Result, ok, err, foreign}
use blockchain_protocol_v.Revenue.Books.{Op, donates, trigers, era_ends, Books}
use blockchain_protocol_v.Revenue.Wallet.{Config, State}

abbrev Ledger : Type 0
Ledger = ℕ → ℕ

abbrev move : ℕ → ℕ → ℕ → Ledger → Ledger
move from to amount l = λ x.
    if nat_beq x to
    then (if nat_beq x from then l x else l x + amount)
    else if nat_beq x from
    then l x - amount
    else l x

-- A transfer of more than 15 fails.
abbrev send : ℕ → ℕ → ℕ → Ledger → Result Ledger
send from to amount l =
    if leb amount (l from)
    then (if leb amount 15 then ok (move from to amount l) else err (foreign 1))
    else err (foreign 0)

-- Account 1 is the wallet's and 2 the fund's, for which nobody signs.
abbrev chain : Config ℕ Ledger
chain = record {
  origins = record {
    is_root = λ origin. false;
    signer = λ origin. if leb 3 origin then some origin else none;
    is_none = λ origin. false;
  };
  currency = record {
    free_balance = λ l who. l who;
    minimum_balance = 1;
    deposit_creating = λ who amount l. l;
    withdraw = λ who amount l. ok l;
    transfer = send;
    make_free_balance_be = λ who amount l. l;
  };
  account_id = 1;
  reward_fund_id = 2;
}

abbrev held : ℕ → Result Ledger → ℕ
held who (ok l) = l who
held who (err x) = 0

-- Everyone holds 10.
abbrev start : State Ledger
start = record { ledger = λ who. 10; events = [] }

-- The second era ends with 18 in the wallet, which the transfer does not move.
abbrev history : List (Op ℕ)
history = donates 3 2 ∷ era_ends ∷ donates 4 10 ∷ donates 5 8 ∷ era_ends ∷ trigers 3 ∷ []
