-- ===== src/Targets.antt =====
-- zcastor/targets/optimizer.py: `TargetOptimizer`, where the stop and the target of a trade come from.
-- Floats are any type that meets `Number`; the texts of a signal are as `str` gives them.
pub mod Floats
pub mod Stop
pub mod Target
pub mod Thesis
use zcastor_agent.Base.{ℕ, String, Bool, true, false, Option, none, some, List, [], ◌∷◌, str_mem}
use zcastor_agent.Base.{is_some, opt_or, if◌then◌else◌}
use zcastor_agent.Base.Dict.{Dict, lookup}
use zcastor_agent.Base.Text.{lower, upper, strip}
use zcastor_agent.Targets.Floats.{Number, less}

-- A level in a payload: missing or `None`, a text, a number, or what `float` refuses.
pub data Level {ℓ} (A : Type ℓ) : Type ℓ where
  missing refused : Level A
  text : String → Level A
  number : A → Level A

-- The fields that the optimiser reads; an `atr` or an `entry_price` on which `float` raises is left
-- out.
pub record TargetSignal {ℓ} (A : Type ℓ) : Type ℓ where
  pub timeframe : Option String
  pub zone_phase : Option String
  pub regime : Option String
  pub session : Option String
  pub direction : Option String
  pub atr : Option A
  pub entry_price : Option A
  pub nearest_support_pts : Level A
  pub nearest_resistance_pts : Level A

-- `policy["targets"]`, each value under its key.
pub record TargetPolicy {ℓ} (A : Type ℓ) : Type ℓ where
  pub min_risk_reward : Option A
  pub tf_sl_range_pts : Dict (A × A)
  pub tf_tp_ceiling_pts : Dict A
  pub phase_fraction : Dict A
  pub session_rr : Dict A
  pub regime_atr_bias : Dict A
  pub regime_rr_cap : Dict A
  pub regime_rr_cap_timeframes : List String
  pub sr_buffer_pts : Option A
  pub phase_blend : Option A
  pub sr_blend : Option A
  pub atr_half_weight : Option A

pub record TargetOptimizer {ℓ} (A : Type ℓ) : Type ℓ where
  pub min_rr : A
  pub sl_range : Dict (A × A)
  pub tp_ceiling : Dict A
  pub phase_frac : Dict A
  pub session_rr : Dict A
  pub atr_bias : Dict A
  pub rr_cap : Dict A
  pub rr_cap_tfs : List String
  pub buffer : A
  pub phase_blend : A
  pub sr_blend : A
  pub atr_weight : A

abbrev tf_aliases : Dict String
tf_aliases =
    ("5", "5m")
    ∷ ("5m", "5m")
    ∷ ("15", "15m")
    ∷ ("15m", "15m")
    ∷ ("30", "30m")
    ∷ ("30m", "30m")
    ∷ ("1h", "1h")
    ∷ ("60", "1h")
    ∷ ("60m", "1h")
    ∷ ("4h", "4h")
    ∷ ("240", "4h")
    ∷ ("240m", "4h")
    ∷ []

unfoldable pub normalise_tf : String → String
normalise_tf tf = opt_or (lookup (lower (strip tf)) tf_aliases) "1h"

-- `signal.get(key, default)`, stripped and in small letters.
abbrev pub word : Option String → String → String
word o d = lower (strip (opt_or o d))

abbrev pub direction_of {ℓ} : {A : Type ℓ} → TargetSignal A → String
direction_of s = upper (strip (opt_or s.direction ""))

abbrev pub phase_of {ℓ} : {A : Type ℓ} → TargetSignal A → String
phase_of s =
    let p = word s.zone_phase "fresh" in
    if str_mem p ("fresh" ∷ "active" ∷ "exhausting" ∷ []) then p else "fresh"

module _ {ℓ} {A : Type ℓ} ⦃n : Number A⦄ where
  unfoldable pub init : TargetPolicy A → TargetOptimizer A
  init cfg = record {
    min_rr = opt_or cfg.min_risk_reward (n.decimal 15 1);
    sl_range = cfg.tf_sl_range_pts;
    tp_ceiling = cfg.tf_tp_ceiling_pts;
    phase_frac = cfg.phase_fraction;
    session_rr = cfg.session_rr;
    atr_bias = cfg.regime_atr_bias;
    rr_cap = cfg.regime_rr_cap;
    rr_cap_tfs = cfg.regime_rr_cap_timeframes;
    buffer = opt_or cfg.sr_buffer_pts (n.decimal 15 0);
    phase_blend = opt_or cfg.phase_blend (n.decimal 6 1);
    sr_blend = opt_or cfg.sr_blend (n.decimal 7 1);
    atr_weight = opt_or cfg.atr_half_weight (n.decimal 5 1);
  }

  unfoldable pub bounds : TargetOptimizer A → String → A × A
  bounds o tf = opt_or (lookup tf o.sl_range) (n.decimal 180 0, n.decimal 350 0)

  -- A number that is not above zero is no level.
  positive : Option A → A
  positive none = n.decimal 0 0
  positive (some a) = if less (n.decimal 0 0) a then a else n.decimal 0 0

  unfoldable pub level_of : Level A → A
  unfolding positive
  level_of missing = n.decimal 0 0
  level_of refused = n.decimal 0 0
  level_of (text s) = positive (n.of_text s)
  level_of (number a) = positive (some a)
