-- ===== src/Targets/Target.antt =====
-- zcastor/targets/optimizer.py: `compute_tp` and `explain`.
use zcastor_agent.Base.{String, Bool, ◌&&◌, Option, none, some, str_eq, str_mem}
use zcastor_agent.Base.{opt_or, if◌then◌else◌}
use zcastor_agent.Base.Dict.{lookup}
use zcastor_agent.Base.Text.{strip}
use zcastor_agent.Targets.{TargetSignal, TargetOptimizer, word, direction_of, phase_of, bounds}
use zcastor_agent.Targets.{level_of}
use zcastor_agent.Targets.Floats.{Number, less, max_of, min_of}
use zcastor_agent.Targets.Stop.{sl_pts, timeframe_of, entry_of, unusable}

-- The numbers that `explain` works out, in the order of their keys.
pub record Explanation {ℓ} (A : Type ℓ) : Type ℓ where
  pub timeframe : String
  pub phase : String
  pub sl_bounds_pts : A × A
  pub sl_round : A
  pub tp_round : A
  pub risk_reward : Option A
  pub tp_ceiling_pts : Option A
  pub regime : String
  pub session_rr : Option A

module _ {ℓ} {A : Type ℓ} ⦃n : Number A⦄ where
  -- Structure first, if it clears the minimum; else the session's multiple of the stop.
  unfoldable pub first_target : TargetOptimizer A → TargetSignal A → A → A
  first_target o s stop =
      let session = opt_or (lookup (strip (opt_or s.session "")) o.session_rr) o.min_rr in
      let rr = max_of session o.min_rr in
      let level = level_of (
        if str_eq (direction_of s) "UP" then s.nearest_resistance_pts else s.nearest_support_pts) in
      if less (n.decimal 0 0) level && n.leb (n.mul stop o.min_rr) (n.sub level o.buffer)
      then n.sub level o.buffer
      else n.mul stop rr

  -- The cap of a regime, which holds on the timeframes that the policy lists.
  unfoldable pub under_cap : TargetOptimizer A → Option A → Bool → A → A → A
  under_cap o none listed stop target = target
  under_cap o (some limit) listed stop target =
      if listed then max_of (min_of target (n.mul stop limit)) (n.mul stop o.min_rr) else target

  abbrev pub regime_capped : TargetOptimizer A → TargetSignal A → A → A → A
  regime_capped o s stop target =
      under_cap o (lookup (word s.regime "unknown") o.rr_cap)
        (str_mem (timeframe_of s) o.rr_cap_tfs) stop target

  abbrev pub ceiling_of : TargetOptimizer A → TargetSignal A → A
  ceiling_of o s = opt_or (lookup (timeframe_of s) o.tp_ceiling) (n.decimal 800 0)

  -- The distance from the entry to the target.
  unfoldable pub target_pts : TargetOptimizer A → TargetSignal A → A → A
  target_pts o s stop =
      let floor = n.mul stop o.min_rr in
      let target = max_of (min_of (first_target o s stop) (ceiling_of o s)) floor in
      let capped = regime_capped o s stop target in
      if n.leb capped (n.decimal 0 0) then floor else capped

  unfoldable pub compute_tp : TargetOptimizer A → TargetSignal A → Option A → Option A
  compute_tp o s fallback =
      let entry = entry_of s fallback in
      let target = target_pts o s (sl_pts o s) in
      if unusable s fallback
      then none
      else some (if str_eq (direction_of s) "UP" then n.add entry target else n.sub entry target)

  -- `abs`
  abbrev size : A → A
  size a = if less a (n.decimal 0 0) then n.sub (n.decimal 0 0) a else a

  abbrev distance_to : A → Option A → A
  distance_to price none = n.decimal 0 0
  distance_to price (some tp) = size (n.sub tp price)

  unfoldable pub explain : TargetOptimizer A → TargetSignal A → A → Explanation A
  explain o s price =
      let stop = sl_pts o s in
      let tp_pts = distance_to price (compute_tp o s (some price)) in
      record {
        timeframe = timeframe_of s;
        phase = phase_of s;
        sl_bounds_pts = bounds o (timeframe_of s);
        sl_round = n.round_to 0 stop;
        tp_round = n.round_to 0 tp_pts;
        risk_reward =
            if n.leb stop (n.decimal 0 0) && n.leb (n.decimal 0 0) stop
            then none
            else some (n.round_to 2 (n.div tp_pts stop));
        tp_ceiling_pts = lookup (timeframe_of s) o.tp_ceiling;
        regime = word s.regime "unknown";
        session_rr = lookup (strip (opt_or s.session "")) o.session_rr;
      }
