-- ===== src/Targets/Stop.antt =====
-- zcastor/targets/optimizer.py: `sl_pts` and `compute_sl`.
use zcastor_agent.Base.{String, Bool, ◌||◌, ◌&&◌, not, Option, none, some, str_eq}
use zcastor_agent.Base.{opt_or, if◌then◌else◌}
use zcastor_agent.Base.Dict.{lookup}
use zcastor_agent.Targets.{TargetSignal, TargetOptimizer, normalise_tf, word, direction_of}
use zcastor_agent.Targets.{phase_of, bounds, level_of}
use zcastor_agent.Targets.Floats.{Number, less, clamp}

abbrev pub timeframe_of {ℓ} : {A : Type ℓ} → TargetSignal A → String
timeframe_of s = normalise_tf (opt_or s.timeframe "1h")

module _ {ℓ} {A : Type ℓ} ⦃n : Number A⦄ where
  -- Python's `x or d` on a number, where `None` and zero give d.
  unfoldable pub number_or : Option A → A → A
  number_or none d = d
  number_or (some a) d = if n.leb a (n.decimal 0 0) && n.leb (n.decimal 0 0) a then d else a

  -- The stop before structure: the phase's target and the scaled ATR, blended.
  unfoldable pub blended_stop : TargetOptimizer A → TargetSignal A → A → A → A
  blended_stop o s lo hi =
      let frac = opt_or (lookup (phase_of s) o.phase_frac) (n.decimal 9 1) in
      let phase_target = n.add lo (n.mul (n.sub hi lo) frac) in
      let atr = number_or s.atr (n.decimal 200 0) in
      let bias = opt_or (lookup (word s.regime "unknown") o.atr_bias) (n.decimal 10 1) in
      let atr_scaled = clamp lo hi (n.mul (n.mul atr o.atr_weight) bias) in
      clamp lo hi (
        n.add (n.mul o.phase_blend phase_target)
          (n.mul (n.sub (n.decimal 1 0) o.phase_blend) atr_scaled))

  unfoldable pub sl_pts : TargetOptimizer A → TargetSignal A → A
  sl_pts o s =
      let range = bounds o (timeframe_of s) in
      let lo = range.0 in
      let hi = range.1 in
      let stop = blended_stop o s lo hi in
      let opposing = level_of (
        if str_eq (direction_of s) "UP" then s.nearest_support_pts else s.nearest_resistance_pts) in
      let anchored = n.add opposing o.buffer in
      if less (n.decimal 0 0) opposing && (n.leb lo anchored && n.leb anchored hi)
      then clamp lo hi
          (n.add (n.mul o.sr_blend anchored) (n.mul (n.sub (n.decimal 1 0) o.sr_blend) stop))
      else stop

  -- `float(fallback_price or signal.get("entry_price") or 0)`
  abbrev pub entry_of : TargetSignal A → Option A → A
  entry_of s fallback = number_or fallback (number_or s.entry_price (n.decimal 0 0))

  -- The guard that `compute_sl` and `compute_tp` share.
  abbrev pub unusable : TargetSignal A → Option A → Bool
  unusable s fallback =
      n.leb (entry_of s fallback) (n.decimal 0 0)
      || not (str_eq (direction_of s) "UP" || str_eq (direction_of s) "DOWN")

  unfoldable pub compute_sl : TargetOptimizer A → TargetSignal A → Option A → Option A
  compute_sl o s fallback =
      let entry = entry_of s fallback in
      let distance = sl_pts o s in
      if unusable s fallback
      then none
      else some
          (if str_eq (direction_of s) "UP" then n.sub entry distance else n.add entry distance)
