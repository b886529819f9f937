-- ===== src/Tests/Desk.antt =====
-- A signal, a policy that leaves everything at its default, and a market, for the runs.
use zcastor_agent.Base.{some, none, true, false, []}
use zcastor_agent.Base.Int.{pos, negsuc, ◌+ℤ◌, ◌-ℤ◌}
use zcastor_agent.Gates.Context.{Signal, Policy, Adapters, GateContext, missing}
use zcastor_agent.Gates.Structure.{Cooldown}

abbrev pub payload : Signal
payload = record {
  direction = some "up";
  confidence = some "high";
  session = some "London";
  timeframe = some "5m";
  regime = some "chop";
  tf_regime = none;
  block_confidence = some "low";
  zone_flip_pending = false;
  zone_phase = none;
  nearest_resistance_pts = missing;
  nearest_support_pts = missing;
}

abbrev pub defaults : Policy
defaults = record {
  allowed_directions = none;
  min_confidence = none;
  blocked_sessions = none;
  spread_hard_block_pts = none;
  spread_target_ratio_max = none;
  range_adequacy_multiple = none;
  min_risk_reward = none;
  deadman_floor_frac = none;
  ranging_allowed_timeframes = none;
  ranging_weak_block_confidences = none;
  entry_cooldown_seconds = none;
  entry_cooldown_distance_pts = none;
  stale_tick_seconds = none;
  commission_rate = none;
  max_trade_risk_frac = none;
  margin_buffer_frac = none;
  session_typical_range_pts = [];
  session_exhaustion_frac = none;
  max_position_stack = none;
  london_window_utc = none;
  london_min_down_pts = none;
  london_spread_multiple = none;
}

abbrev pub adapters : Adapters
adapters = record {
  balance = some (pos 100000);
  today_pnl = negsuc 29999;
  check_zone = λ price dir tf. (some "ok", 0);
  zone_phase = λ price dir tf. "fresh";
  check_signal_coherence = λ dir tf. some "ok";
  clock = 500000;
  tick = some (record { time = 1; price = pos 6000500; ask = pos 6001000; bid = pos 6000000 });
  volume = record { num = 1; den = 100 };
  free_margin = some (pos 90000);
  margin_for = λ dir vol price. pos 100;
  session_open_price = λ s. pos 5990000;
  live_positions = 0;
  check_model_coherence = some "ok";
  ledger_action = λ tf s r. "shadow";
  compute_tp = λ phase price. some (price +ℤ pos 40000);
  compute_sl = λ phase price. some (price -ℤ pos 20000);
  utc_hour = 9;
}

abbrev pub context : GateContext
context = record {
  signal = payload;
  policy = defaults;
  adapters = adapters;
  direction = some "UP";
  is_buy = some true;
  confidence = none;
  session = none;
  mid = some (pos 6000000);
  execution_price = some (pos 6001000);
  spread_pts = some (pos 4000);
  cost_pts = none;
  spread_ratio = none;
  tp_pts = none;
  sl_pts = none;
  available_pts = none;
  zone_status = none;
  zone_count = none;
  zone_phase = none;
  tf_regime = none;
  balance = none;
  start_of_day = none;
  tick_time = none;
  ask = none;
  bid = none;
  commission_pts = none;
  tp = none;
  sl = none;
  dollar_risk = none;
  open_positions = none;
  route_kind = none;
}

abbrev pub fill : Cooldown
fill = record { last_fill = 100000; last_price = pos 6000000; last_direction = "UP" }
