-- ===== src/Staking/Rotation.antt =====
-- The planned and the active era of frame/staking as sessions go by.
use mathlib.Core.Path.{subst}
use blockchain_protocol_v.Common.{
  ℕ, ◌+◌, ◌-◌, ◌<◌, ◌≡◌, refl, ◌⊎◌, inl, inr, Bool, true, false, Option, none, some, List, nat_eq,
  ltb, leb, ap, sym, arith, u32_max, wrapping_add, wrapping_add_small, max, length,
}
use blockchain_protocol_v.Common.Storage.{lookup, insert, lookup-insert, lookup-remove}
use blockchain_protocol_v.Staking.Eras.{end_era, pay_era}
use blockchain_protocol_v.Staking.Exposures.{Exposures, Supports}
use blockchain_protocol_v.Staking.Planning.{
  Chain, SessionConfig, stakers_elected, deposit_session_event, clear_era_information,
  clear_old_era, trigger_new_era, too_few, plan_elected, try_trigger_new_era, is_due, reset_forcing,
  new_session, next_planned, collect_exposures,
}
use blockchain_protocol_v.Staking.Sessions.{
  next_active, disable_offending, start_session, end_session, rotate,
}
use blockchain_protocol_v.Staking.Stakers.{set_accounts}
use blockchain_protocol_v.Staking.Views.{View, view, start_era-view, store_stakers_info-view}

-- The active era is the planned one.
record Active (v : View) : Type 0 where
  current : ℕ
  is_current : v.0 ≡ some current
  depth : v.1 < u32_max
  none_later : (era : ℕ) → current < era → lookup era v.2 ≡ none
  caught_up : next_active v.3 ≡ current + 1

-- In a session: the active era is the planned one, or the one before, and then the planned one starts
-- with the next session.
pub record Planned (session : ℕ) (v : View) : Type 0 where
  pub current : ℕ
  pub is_current : v.0 ≡ some current
  pub depth : v.1 < u32_max
  pub none_later : (era : ℕ) → current < era → lookup era v.2 ≡ none
  pub phase :
      (next_active v.3 ≡ current + 1)
      ⊎ ((next_active v.3 ≡ current) × (lookup current v.2 ≡ some (session + 1)))

Active-Planned : (session : ℕ) (v : View) → Active v → Planned session v
Active-Planned session v h = record {
  current = h.current;
  is_current = h.is_current;
  depth = h.depth;
  none_later = h.none_later;
  phase = inl h.caught_up;
}

module _ {Accounts Voters : Type 0} where
  reset_forcing-view :
      (o : Option (List ℕ)) (s : Chain Accounts Voters) → view (reset_forcing o s) ≡ view s
  reset_forcing-view none s = refl
  reset_forcing-view (some l) s = ground arith

  too_few-view :
      (session current : ℕ) (s : Chain Accounts Voters)
      → s.staking.current_era ≡ some current
      → view (too_few session s) ≡ view s
  unfolding too_few
  too_few-view session current s h = ground (arith, h)

module _ {Origin Accounts Voters : Type 0} (T : SessionConfig Origin Accounts Voters) where
  end_session-view :
      (session : ℕ) (s : Chain Accounts Voters) → view (end_session T session s) ≡ view s
  unfolding end_session end_era pay_era
  end_session-view session s = ground arith

  start_session-Active :
      (session : ℕ) (s : Chain Accounts Voters)
      → Planned session (view s)
      → Active (view (start_session T (session + 1) s))
  unfolding start_session disable_offending
  start_session-Active session s h = elim h.phase [
    | inl up ↦
        let unplanned : lookup (next_active s.active_era) s.eras_start_session_index ≡ none =
          h.none_later (next_active s.active_era) (omega (arith, up)) in
        rw (start_session, unplanned)
          (record {
            current = h.current;
            is_current = h.is_current;
            depth = h.depth;
            none_later = h.none_later;
            caught_up = up;
          })
    | inr (behind, start) ↦
        let begins : lookup (next_active s.active_era) s.eras_start_session_index
            ≡ some (session + 1) =
          subst (λ (era : ℕ). lookup era s.eras_start_session_index ≡ some (session + 1))
            (sym behind) start in
        let due : leb (session + 1) (session + 1) ≡ true = ground arith in
        rw (start_session, begins, due)
          (subst Active (sym (start_era-view T (session + 1) s)) (record {
            current = h.current;
            is_current = h.is_current;
            depth = h.depth;
            none_later = h.none_later;
            caught_up = ap (λ (n : ℕ). n + 1) behind;
          }))
  ]

  clear_old_era-Planned :
      (session era : ℕ) (s : Chain Accounts Voters)
      → s.staking.current_era ≡ some era
      → s.staking.eras.history_depth < u32_max
      → ((later : ℕ) → era < later → lookup later s.eras_start_session_index ≡ none)
      → next_active s.active_era ≡ era
      → lookup era s.eras_start_session_index ≡ some (session + 1)
      → Planned session (view (clear_old_era era s))
  unfolding clear_old_era clear_era_information
  clear_old_era-Planned session era s now depth none_later behind begins =
      let d = s.staking.eras.history_depth in
      let exact : wrapping_add (u32_max + 1) d 1 ≡ d + 1 =
        wrapping_add_small (u32_max + 1) d 1 (omega (arith, depth)) in
      let m = s.eras_start_session_index in
      record {
        current = era;
        is_current = ground (arith, now);
        depth = ground (arith, depth);
        none_later = λ later above.
            ground (arith, none_later later above, lookup-remove later (era - (d + 1)) m, exact);
        phase = inr (
          ground (arith, behind),
          ground (arith, begins, lookup-remove era (era - (d + 1)) m, exact),
        );
      }

  trigger_new_era-Planned :
      (session : ℕ) (exposures : Exposures) (s : Chain Accounts Voters)
      → Active (view s)
      → Planned session (view (trigger_new_era T (session + 1) exposures s).1)
  unfolding trigger_new_era
  trigger_new_era-Planned session exposures s h =
      let era = next_planned s in
      let next : next_planned s ≡ h.current + 1 = ground (arith, h.is_current) in
      let s₁ : Chain Accounts Voters = record s {
        staking = record s.staking { current_era = some era };
        eras_start_session_index = insert era (session + 1) s.eras_start_session_index;
      } in
      subst (Planned session) (sym (store_stakers_info-view T exposures era (clear_old_era era s₁)))
        (clear_old_era-Planned session era s₁ refl h.depth
          (λ later above. ground (
            arith,
            h.none_later later (omega (arith, above, next)),
            lookup-insert later era (session + 1) s.eras_start_session_index,
          ))
          (omega (arith, next, h.caught_up))
          (ground (arith, lookup-insert era era (session + 1) s.eras_start_session_index)))

  plan_elected-Planned :
      (session : ℕ) (exposures : Exposures) (s : Chain Accounts Voters)
      → Active (view s)
      → Planned session (view (plan_elected T (session + 1) exposures s).1)
  unfolding plan_elected
  plan_elected-Planned session exposures s h =
      go (ltb (length exposures) (max s.minimum_validator_count 1)) refl
    where
      go :
          (b : Bool)
          → ltb (length exposures) (max s.minimum_validator_count 1) ≡ b
          → Planned session (view (plan_elected T (session + 1) exposures s).1)
      go true f =
          rw (plan_elected, f)
            (subst (Planned session) (sym (too_few-view (session + 1) h.current s h.is_current))
              (Active-Planned session (view s) h))
      go false f =
          rw (plan_elected, f)
            (trigger_new_era-Planned session exposures (deposit_session_event stakers_elected s) h)

  try_trigger_new_era-Planned :
      (session : ℕ) (s : Chain Accounts Voters)
      → Active (view s)
      → Planned session (view (try_trigger_new_era T (session + 1) false s).1)
  unfolding try_trigger_new_era
  try_trigger_new_era-Planned session s h = go (T.elect false s.staking).0 refl
    where
      a : Accounts
      a = (T.elect false s.staking).1

      s₁ : Chain Accounts Voters
      s₁ = record s { staking = set_accounts a s.staking }

      go :
          (o : Option Supports)
          → (T.elect false s.staking).0 ≡ o
          → Planned session (view (try_trigger_new_era T (session + 1) false s).1)
      go none f = rw (try_trigger_new_era, f) (Active-Planned session (view s) h)
      go (some supports) f =
          rw (try_trigger_new_era, f)
            (plan_elected-Planned session (collect_exposures T supports a) s₁ h)

  new_session-Planned :
      (session : ℕ) (s : Chain Accounts Voters)
      → Active (view s)
      → Planned session (view (new_session T (session + 1) false s).1)
  unfolding new_session
  new_session-Planned session s h = go (is_due T (session + 1) h.current s) refl
    where
      go :
          (b : Bool)
          → is_due T (session + 1) h.current s ≡ b
          → Planned session (view (new_session T (session + 1) false s).1)
      go false f = rw (new_session, h.is_current, f) (Active-Planned session (view s) h)
      go true f =
          let tried = try_trigger_new_era T (session + 1) false s in
          rw (new_session, h.is_current, f)
            (subst (Planned session) (sym (reset_forcing-view tried.0 tried.1))
              (try_trigger_new_era-Planned session s h))

  -- From one session to the next, whether a new era is due or forced, the election fails, or too few
  -- are elected, the active era is the planned one or the one before it, no later era is planned, and
  -- an era that is planned but not active starts with the next session. The history depth is below
  -- the greatest `u32`.
  pub rotate-Planned :
      (session : ℕ) (s : Chain Accounts Voters)
      → Planned session (view s)
      → Planned (session + 1) (view (rotate T session s))
  unfolding rotate
  rotate-Planned session s h =
      let ended = end_session T session s in
      let started = start_session T (session + 1) ended in
      let h₁ : Planned session (view ended) =
        subst (Planned session) (sym (end_session-view session s)) h in
      let sum : session + 2 ≡ session + 1 + 1 = omega arith in
      subst (λ (n : ℕ). Planned (session + 1) (view (new_session T n false started).1)) (sym sum)
        (new_session-Planned (session + 1) started (start_session-Active session ended h₁))
