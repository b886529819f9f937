-- ===== src/Resolve/Resolver.antt =====
-- zcastor/resolve/resolver.py: every decision is measured, refusals included. The two files are the
-- lists that were last written to them; times are in milliseconds.
pub mod Ids
pub mod Cycle
pub mod Stalled
use zcastor_agent.Base.{
  ℕ, ◌+◌, ◌*◌, String, str_eq, Bool, true, false, not, ◌||◌, Option, none, some, List, [], ◌∷◌,
  ◌++◌, map, any, keep_if, leb, ltb, ◌==◌, if◌then◌else◌, opt_or,
}
use zcastor_agent.Base.Dict.{Dict, lookup}
use zcastor_agent.Base.Int.{ℤ, pos, leb_ℤ}
use zcastor_agent.Base.Text.{lower, upper, strip}
use zcastor_agent.Resolve.Classify.{Bar, Judgement, classify}

-- The `resolver` block of the policy.
pub record ResolverPolicy : Type 0 where
  pub horizon_min_by_tf : Dict ℕ
  pub horizon_min_default : Option ℕ
  pub default_spread_pts : ℤ
  pub rr_num : ℕ
  pub rr_den : ℕ
  pub give_up : ℕ

-- `horizon_minutes`
unfoldable pub horizon_minutes : ResolverPolicy → String → ℕ
horizon_minutes cfg timeframe =
    opt_or (lookup (lower (strip timeframe)) cfg.horizon_min_by_tf)
      (opt_or cfg.horizon_min_default 120)

-- The arguments of `register`.
pub record Registration : Type 0 where
  pub signal_id : String
  pub direction : String
  pub ref_price : ℤ
  pub timeframe : String
  pub session : String
  pub action : String
  pub sl_pts : ℤ
  pub tp_pts : ℤ
  pub spread_pts : Option ℤ

-- A record of `_pending`.
pub record Measured : Type 0 where
  pub signal_id : String
  pub direction : String
  pub ref_price : ℤ
  pub timeframe : String
  pub session : String
  pub action : String
  pub sl_pts : ℤ
  pub tp_pts : ℤ
  pub spread_pts : ℤ
  pub registered_ts : ℕ
  pub due_ts : ℕ
  pub horizon_min : ℕ
  pub attempts : ℕ

-- A record of the outcomes file.
pub record OutcomeRecord : Type 0 where
  pub measured : Measured
  pub resolved_ts : ℕ
  pub verdict : Judgement

-- `OutcomeResolver`
pub record OutcomeResolver : Type 0 where
  pub policy : ResolverPolicy
  pub pending : List Measured
  pub pending_file : List Measured
  pub outcomes : List OutcomeRecord

-- The market, the clock and the hook. The bars are `none` where the call
-- raises; a market that catches its own errors answers [].
pub record Feed (W : Type 0) : Type 0 where
  pub get_rates_range : ℕ → ℕ → W → Option (List Bar) × W
  pub clock : W → ℕ × W
  pub on_resolved : OutcomeRecord → W → W

abbrev pub minute : ℕ
minute = 60000

-- The record of a registration at a moment.
unfoldable pub measured_of : ResolverPolicy → ℕ → Registration → Measured
unfolding horizon_minutes
measured_of cfg now g =
    let horizon = horizon_minutes cfg g.timeframe in
    record {
      signal_id = g.signal_id;
      direction = upper g.direction;
      ref_price = g.ref_price;
      timeframe = g.timeframe;
      session = g.session;
      action = g.action;
      sl_pts = g.sl_pts;
      tp_pts = g.tp_pts;
      spread_pts = opt_or g.spread_pts cfg.default_spread_pts;
      registered_ts = now;
      due_ts = now + horizon * minute;
      horizon_min = horizon;
      attempts = 0;
    }

abbrev pub is_pending : String → List Measured → Bool
is_pending id = any (λ r. str_eq r.signal_id id)

-- `_save_pending`
abbrev pub save : OutcomeResolver → OutcomeResolver
save s = record s { pending_file = s.pending }

-- `register`, at the reading of the clock.
unfoldable pub register : ℕ → Registration → OutcomeResolver → OutcomeResolver
unfolding measured_of
register now g s =
    if leb_ℤ g.ref_price (pos 0)
    then s
    else if is_pending g.signal_id s.pending
    then s
    else save (record s { pending = s.pending ++ measured_of s.policy now g ∷ [] })

-- `_drop`
abbrev pub drop : Measured → OutcomeResolver → OutcomeResolver
drop r s = record s { pending = keep_if (λ x. not (str_eq x.signal_id r.signal_id)) s.pending }

-- `record["attempts"] += 1`, on the record that `_pending` holds.
abbrev pub retry : Measured → OutcomeResolver → OutcomeResolver
retry r s = record s {
  pending =
      map
        (λ x. if str_eq x.signal_id r.signal_id then record x { attempts = x.attempts + 1 } else x)
        s.pending;
}

-- The counts of a call of `tick`.
pub record Tally : Type 0 where
  pub resolved : ℕ
  pub abandoned : ℕ
  pub stalled : ℕ

-- `_resolve` on the answer of the market.
unfoldable pub resolve_bars : ResolverPolicy → Measured → Option (List Bar) → Option Judgement
unfolding classify
resolve_bars cfg r none = none
resolve_bars cfg r (some []) = none
resolve_bars cfg r (some bars) =
    classify r.direction r.ref_price r.sl_pts r.tp_pts r.spread_pts cfg.rr_num cfg.rr_den bars

abbrev pub is_due : ℕ → Measured → Bool
is_due now r = leb r.due_ts now

module _ {W : Type 0} (f : Feed W) where
  -- `_complete`
  unfoldable pub complete : Measured → Judgement → OutcomeResolver → W → OutcomeResolver × W
  complete r v s w =
      let (now, w') = f.clock w in
      let o : OutcomeRecord = record { measured = r; resolved_ts = now; verdict = v } in
      (drop r (record s { outcomes = s.outcomes ++ o ∷ [] }), f.on_resolved o w')

  -- A round of the loop of `tick` on the verdict.
  unfoldable pub settle :
      Option Judgement → Measured → OutcomeResolver → W → Tally → OutcomeResolver × W × Tally
  unfolding complete
  settle none r s w t = (retry r s, w, record t { stalled = t.stalled + 1 })
  settle (some v) r s w t =
      let (s', w') = complete r v s w in (s', w', record t { resolved = t.resolved + 1 })

  unfoldable pub tick_one : ℕ → Measured → OutcomeResolver → W → Tally → OutcomeResolver × W × Tally
  unfolding settle resolve_bars
  tick_one now r s w t =
      let (bars, w') =
        f.get_rates_range r.registered_ts (r.registered_ts + r.horizon_min * minute) w in
      if ltb (r.registered_ts + s.policy.give_up) now
      then (drop r s, w, record t { abandoned = t.abandoned + 1 })
      else settle (resolve_bars s.policy r bars) r s w' t

  unfoldable pub tick_all :
      ℕ → List Measured → OutcomeResolver → W → Tally → OutcomeResolver × W × Tally
  unfolding tick_one
  tick_all now [] s w t = (s, w, t)
  tick_all now (r ∷ rs) s w t = let (s', w', t') = tick_one now r s w t in tick_all now rs s' w' t'

  -- `tick`
  unfoldable pub tick : OutcomeResolver → W → OutcomeResolver × W × Tally
  unfolding tick_all
  tick s w =
      let (now, w') = f.clock w in
      let (s', w'', t) =
        tick_all now (keep_if (λ r. is_due now r) s.pending) s w'
          (record { resolved = 0; abandoned = 0; stalled = 0 }) in
      if not (t.resolved == 0) || not (t.abandoned == 0) then (save s', w'', t) else (s', w'', t)
