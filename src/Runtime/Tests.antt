-- ===== src/Runtime/Tests.antt =====
-- The theorems of the runtime's logic at small inputs.
use blockchain_protocol_v.Common.{
  ℕ, ◌+◌, ◌-◌, ◌^◌, leb, ◌≤◌, ◌<◌, nat_eq, ◌==◌, if◌then◌else◌, arith, ap,
}
use blockchain_protocol_v.Common.Errors.{Result, ok, err, foreign}
use blockchain_protocol_v.Runtime.Conversions.{to_votes, from_votes, factor}
use blockchain_protocol_v.Runtime.Merging.{Balances, Laws}
use blockchain_protocol_v.Runtime.RoundTrips.{votes_round_trip}

abbrev there : ℕ
there = 0

abbrev other : ℕ
other = 5

-- An issuance of 10^21 in a balance of 10^20.
votes_round_trip_example :
    let back = from_votes (10 ^ 21) (to_votes (10 ^ 21) (10 ^ 20)) in
    (back ≤ 10 ^ 20) × (10 ^ 20 < back + factor (10 ^ 21))
unfolding factor
votes_round_trip_example = votes_round_trip (10 ^ 21) (10 ^ 20) (omega arith) (omega arith)

abbrev contract : ℕ → ℕ → ℕ
contract k input = k + input

-- Free and reserved balances.
abbrev Accounts : Type 0
Accounts = (ℕ → ℕ) × (ℕ → ℕ)

abbrev set : ℕ → ℕ → (ℕ → ℕ) → ℕ → ℕ
set who amount f x = if x == who then amount else f x

abbrev balances : Balances Accounts
balances = record {
  free = λ who a. a.0 who;
  reserved = λ who a. a.1 who;
  unreserve = λ who amount a. (set who (a.0 who + amount) a.0, set who (a.1 who - amount) a.1);
  transfer = λ from to amount a.
      if leb amount (a.0 from)
      then ok (set to (a.0 to + amount) (set from (a.0 from - amount) a.0), a.1)
      else err (foreign 0);
}

abbrev free_of : ℕ → Result Accounts → ℕ
free_of who (ok a) = a.0 who
free_of who (err e) = 0

laws : Laws balances
laws = record {
  frees = λ who amount a le. ground arith;
  keeps = λ who other amount a ne. ground (arith, ne);
  takes = λ {a} {a'} from to amount ne h. ground (arith, h, ap (free_of from) h, ne);
  gives = λ {a} {a'} from to amount ne h. ground (arith, h, ap (free_of to) h, ne);
}

-- Everyone has 10 free and 4 reserved.
abbrev held : Accounts
held = (λ who. 10, λ who. 4)
