-- ===== src/Staking/SessionTests.antt =====
-- The theorems of the sessions and the deferred slashes of frame/staking at a small chain.
use blockchain_protocol_v.Common.{
  leb, ltb, ◌&&◌, ℕ, ◌≡◌, ◌-◌, refl, inl, true, none, some, List, [], ◌∷◌, arith, nat_eq, ◌==◌,
  if◌then◌else◌,
}
use blockchain_protocol_v.Common.Storage.{get, lookup}
use blockchain_protocol_v.Staking.CallTests.{chain, genesis}
use blockchain_protocol_v.Staking.Cancelling.{cancel_sound, without}
use blockchain_protocol_v.Staking.Deferral.{cancel_deferred_slash}
use blockchain_protocol_v.Staking.Planning.{Chain, SessionConfig}
use blockchain_protocol_v.Staking.Points.{no_points, held, reward_by_ids, reward_by_ids-held}
use blockchain_protocol_v.Staking.Queues.{deferred_applied, apply_all}
use blockchain_protocol_v.Staking.Rotation.{Planned, rotate-Planned}
use blockchain_protocol_v.Staking.Sessions.{apply_unapplied_slashes, start_era, next_active, rotate}
use blockchain_protocol_v.Staking.Slashing.{UnappliedSlash}
use blockchain_protocol_v.Staking.Views.{view}
use blockchain_protocol_v.Staking.Window.{FromTo, start_era-Window}

-- An era has 6 sessions; 1 is elected with its own vote and that of 3. Slashes wait for 2 eras.
abbrev sessions : SessionConfig ℕ ℕ (List ℕ)
sessions = record {
  base = chain;
  elect = λ genesis s. (some ((1, (1, 60) ∷ (3, 40) ∷ []) ∷ []), s.eras.wallet.ledger);
  to_currency = λ votes issuance. votes;
  sessions_per_era = 6;
  slash_defer_duration = 2;
  max_nominator_rewarded_per_validator = 1;
  prune_historical_up_to = λ session l. l;
  is_slash_cancel_origin = λ o. o == 0;
}

abbrev slash_of : ℕ → UnappliedSlash
slash_of amount = record { validator = 1; own = amount; others = []; reporters = []; payout = 0 }

-- Era 8 is planned and active since session 40; slashes wait in eras 5 and 7.
abbrev running : Chain ℕ (List ℕ)
running = record {
  staking = genesis;
  active_era = some (record { index = 8; start = none });
  eras_start_session_index = (8, 40) ∷ [];
  bonded_eras = (5, 22) ∷ (6, 28) ∷ (7, 34) ∷ (8, 40) ∷ [];
  eras_stakers = [];
  eras_total_stake = [];
  unapplied_slashes =
      (5, slash_of 10 ∷ []) ∷ (7, slash_of 20 ∷ slash_of 30 ∷ slash_of 40 ∷ []) ∷ [];
  earliest_unapplied_slash = some 5;
  invulnerables = [];
  slash_reward_fraction = 0;
  minimum_validator_count = 1;
  session_events = [];
}

running-Planned : Planned 45 (view running)
running-Planned = record {
  current = 8;
  is_current = refl;
  depth = omega arith;
  none_later = λ era above. ground (arith, above);
  phase = inl refl;
}

rotate-Planned_example : Planned 46 (view (rotate sessions 45 running))
rotate-Planned_example = rotate-Planned sessions 45 running running-Planned

start_era-Window_example :
    let s' = start_era sessions 46 running in
    let next = next_active s'.active_era in (next ≡ 10) × FromTo (next - 1 - 3) next s'.bonded_eras
start_era-Window_example = start_era-Window sessions 46 running (refl, (refl, (refl, (refl, refl))))

deferred_applied_example :
    let s' = apply_unapplied_slashes sessions 9 running in
    (s'.staking ≡ apply_all sessions ((5, slash_of 10) ∷ []) running.staking)
    × ((era : ℕ)
        → lookup era s'.unapplied_slashes
          ≡ (if leb 5 era && ltb era 7 then none else lookup era running.unapplied_slashes))
    × (s'.earliest_unapplied_slash ≡ some 7)
    × (apply_unapplied_slashes sessions 10 s' ≡ apply_unapplied_slashes sessions 10 running)
unfolding apply_unapplied_slashes
deferred_applied_example = deferred_applied sessions 9 10 5 running refl (omega arith)

cancel_sound_example :
    let s' = (cancel_deferred_slash sessions 0 7 (0 ∷ 2 ∷ []) running).1 in
    (sessions.is_slash_cancel_origin 0 ≡ true)
    × ((e : ℕ)
        → get [] e s'.unapplied_slashes ≡ (
            if e == 7
            then without 0 (0 ∷ 2 ∷ []) (get [] 7 running.unapplied_slashes)
            else get [] e running.unapplied_slashes))
    × (s'.staking ≡ running.staking)
unfolding cancel_deferred_slash
cancel_sound_example = cancel_sound sessions 0 7 (0 ∷ 2 ∷ []) running refl

reward_by_ids-held_example :
    let s = (record running { active_era = some (record { index = 9; start = none }) }) in
    let r' = get no_points 9 (reward_by_ids ((1, 20) ∷ (1, 2) ∷ []) s).staking.eras_reward_points in
    (r'.total ≡ held r') × (r'.total ≡ 22)
unfolding reward_by_ids
reward_by_ids-held_example =
    reward_by_ids-held ((1, 20) ∷ (1, 2) ∷ [])
      (record running { active_era = some (record { index = 9; start = none }) })
      (record { index = 9; start = none }) refl refl (omega arith)
