-- ===== src/Gates/Context.antt =====
-- zcastor/gates/base.py: `GateContext`, with the fields that the gates read and write, and what the
-- adapters answer. Prices, balances and distances are integers in one fixed unit; times are in
-- milliseconds; a fraction of the policy is a numerator over a denominator.
use zcastor_agent.Base.{ℕ, String, Bool, Option, none, some, List}
use zcastor_agent.Base.Dict.{Dict}
use zcastor_agent.Base.Int.{ℤ, pos, ◌*ℤ◌, ltb_ℤ, leb_ℤ}
use zcastor_agent.Gates.Verdict.{Decision}
use zcastor_agent.Gates.Pipeline.{Outcome, raised, decided}

-- A fraction of the policy, such as 0.75.
pub record Fraction : Type 0 where
  pub num : ℕ
  pub den : ℕ

-- `a / b < f` and `a / b <= f`, for b > 0, multiplied out.
abbrev pub ratio_ltb : ℤ → ℤ → Fraction → Bool
ratio_ltb a b f = ltb_ℤ (a *ℤ pos f.den) (b *ℤ pos f.num)

abbrev pub ratio_leb : ℤ → ℤ → Fraction → Bool
ratio_leb a b f = leb_ℤ (a *ℤ pos f.den) (b *ℤ pos f.num)

-- A number in a payload: missing, an empty text, something that `float` refuses, or a number.
pub data Raw : Type 0 where
  missing blank unreadable : Raw
  number : ℤ → Raw

-- The payload's fields, as `signal.get` gives them.
pub record Signal : Type 0 where
  pub direction : Option String
  pub confidence : Option String
  pub session : Option String
  pub timeframe : Option String
  pub regime : Option String
  pub tf_regime : Option String
  pub block_confidence : Option String
  pub zone_flip_pending : Bool
  pub zone_phase : Option String
  pub nearest_resistance_pts : Raw
  pub nearest_support_pts : Raw

-- The policy's values, each under its key.
pub record Policy : Type 0 where
  pub allowed_directions : Option (List String)
  pub min_confidence : Option String
  pub blocked_sessions : Option (List String)
  pub spread_hard_block_pts : Option ℤ
  pub spread_target_ratio_max : Option Fraction
  pub range_adequacy_multiple : Option Fraction
  pub min_risk_reward : Option Fraction
  pub deadman_floor_frac : Option Fraction
  pub ranging_allowed_timeframes : Option (List String)
  pub ranging_weak_block_confidences : Option (List String)
  pub entry_cooldown_seconds : Option ℕ
  pub entry_cooldown_distance_pts : Option ℤ
  pub stale_tick_seconds : Option ℕ
  pub commission_rate : Option Fraction
  pub max_trade_risk_frac : Option Fraction
  pub margin_buffer_frac : Option Fraction
  pub session_typical_range_pts : Dict ℤ
  pub session_exhaustion_frac : Option Fraction
  pub max_position_stack : Option ℕ
  pub london_window_utc : Option (ℕ × ℕ)
  pub london_min_down_pts : Option ℤ
  pub london_spread_multiple : Option Fraction

-- What `get_tick` gives: no dict or an error, or a tick, where 0 stands for a missing number.
pub record RawTick : Type 0 where
  pub time : ℕ
  pub price : ℤ
  pub ask : ℤ
  pub bid : ℤ

-- What the adapters answer during a run: the market, the risk facade and the clock.
pub record Adapters : Type 0 where
  pub balance : Option ℤ
  pub today_pnl : ℤ
  pub check_zone : ℤ → String → String → Option String × ℕ
  pub zone_phase : ℤ → String → String → String
  pub check_signal_coherence : String → String → Option String
  pub clock : ℕ
  pub tick : Option RawTick
  pub volume : Fraction
  pub free_margin : Option ℤ
  pub margin_for : String → Fraction → ℤ → ℤ
  pub session_open_price : String → ℤ
  pub live_positions : ℕ
  pub check_model_coherence : Option String
  pub ledger_action : String → String → String → String
  pub compute_tp : String → ℤ → Option ℤ
  pub compute_sl : String → ℤ → Option ℤ
  pub utc_hour : ℕ

-- `derived`: each value is absent until a stage puts it.
pub record GateContext : Type 0 where
  pub signal : Signal
  pub policy : Policy
  pub adapters : Adapters
  pub direction : Option String
  pub is_buy : Option Bool
  pub confidence : Option String
  pub session : Option String
  pub mid : Option ℤ
  pub execution_price : Option ℤ
  pub spread_pts : Option ℤ
  pub cost_pts : Option ℤ
  pub spread_ratio : Option (ℤ × ℤ)
  pub tp_pts : Option ℤ
  pub sl_pts : Option ℤ
  pub available_pts : Option ℤ
  pub zone_status : Option String
  pub zone_count : Option ℕ
  pub zone_phase : Option String
  pub tf_regime : Option String
  pub balance : Option ℤ
  pub start_of_day : Option ℤ
  pub tick_time : Option ℕ
  pub ask : Option ℤ
  pub bid : Option ℤ
  pub commission_pts : Option ℤ
  pub tp : Option ℤ
  pub sl : Option ℤ
  pub dollar_risk : Option ℤ
  pub open_positions : Option ℕ
  pub route_kind : Option String

abbrev pub Evaluation : Type 0
Evaluation = Outcome × GateContext

-- A gate that returns the decision and leaves the context so.
abbrev pub return : Decision → GateContext → Evaluation
return d c = (decided d, c)

-- `ctx.need`: the `KeyError` ends the evaluation.
abbrev pub need : {A : Type 0} → Option A → GateContext → (A → Evaluation) → Evaluation
need none c k = (raised, c)
need (some a) c k = k a
