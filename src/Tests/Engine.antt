-- ===== src/Tests/Engine.antt =====
-- The engine over ports that count their calls.
use zcastor_agent.Base.{
  ℕ, ◌+◌, String, String-discrete, true, false, Option, some, none, [], ◌∷◌, ◌++◌, ◌≡◌, refl,
}
use zcastor_agent.Base.Int.{ℤ, pos, negsuc, ◌-ℤ◌, ◌*ℤ◌, neg}
use zcastor_agent.Gates.Cost.{deadman_gate, evaluate_deadman, deadman_from}
use zcastor_agent.Gates.Verdict.{binding, DecisionTrace, suppress, allow}
use zcastor_agent.Gates.Pipeline.{run, step}
use zcastor_agent.Gates.Context.{GateContext, Adapters}
use zcastor_agent.Gates.Feed.{FeedMemory}
use zcastor_agent.Gates.Stack.{gates}
use zcastor_agent.Anchor.Record.{PendingRecord, AnchorResult}
use zcastor_agent.Anchor.Outbox.{empty}
use zcastor_agent.Anchor.Index.{AnchorIndex, words}
use zcastor_agent.Record.DecisionLog.{new_log}
use zcastor_agent.Resolve.Resolver.{OutcomeResolver}
use zcastor_agent.Execution.Orders.{Answer, ok, error, Filled}
use zcastor_agent.Execution.Engine.{Ports, Settings, EngineState, arm_returned}
use zcastor_agent.Execution.Engine.Recording.{conclude, process}
use zcastor_agent.Execution.Engine.Lifecycle.{on_anchored, on_outcome_resolved}
use zcastor_agent.Execution.Engine.Halted.{rewired, process-halted}
use zcastor_agent.Execution.Engine.Accounted.{awaits, said_in}
use zcastor_agent.Execution.Engine.Logged.{process-said, conclude-awaits}
use zcastor_agent.Execution.Engine.Resolved.{on_outcome_resolved-again}
use zcastor_agent.Execution.Engine.Superseded.{superseded-on_anchored, status_of, knows, update_key}
use zcastor_agent.Tests.Desk.{payload, defaults, adapters, context, fill}

abbrev filled : Filled
filled = record { ticket = 7; side = "BUY"; price = pos 6001000; sl = pos 5981000; tp = none }

abbrev ports : Adapters → Ports ℕ
ports a = record {
  begin = λ w. w + 1;
  now = λ w. ("2026-01-01T00:00:00Z", w);
  clock = λ w. (500000, w);
  uuid = λ w. ("id", w + 1);
  origin_hash = λ g. "origin";
  adapters = λ g w. (a, w);
  get_open_positions = λ w. ((3, "BUY") ∷ [], w);
  close_position = λ t side w. (ok (t, pos 6000000), w + 1);
  market_order = λ side price sl tp w. (ok filled, w + 100);
  open_trade = λ t w. w + 1;
  record_entry = λ z d tf w. w + 1;
  on_fill_notify = λ id f w. w;
  arm = λ id kind c w. (arm_returned none, w + 1);
  state_hash = λ session w. (some "state", w);
  publish_dossier = λ d w. (some ("sum", "uri"), w + 1);
  dossier_checksum = λ d. "sum";
}

abbrev settings : Settings
settings = record {
  policy = defaults;
  policy_hash = "policy";
  policy_version = "1";
  process_hash = "process";
  code_version = "abc";
  environment = "";
  registries = [];
  registry_ids = [];
  volume = 1;
  has_watcher = true;
  has_publisher = true;
}

abbrev resolver : OutcomeResolver
resolver = record {
  policy = record {
    horizon_min_by_tf = [];
    horizon_min_default = none;
    default_spread_pts = pos 3000;
    rr_num = 3;
    rr_den = 2;
    give_up = 86400000;
  };
  pending = [];
  pending_file = [];
  outcomes = [];
}

abbrev no_rows : AnchorIndex
no_rows = record { log = []; by_signal = [] }

abbrev state : EngineState ℕ
state = record {
  decision_log = some (new_log "2026-01-01" "execution");
  outbox = some (empty 0);
  resolver = some resolver;
  anchor_index = some no_rows;
  world = 0;
}

abbrev no_tick : FeedMemory
no_tick = record { last_tick_time = none; first_seen_at = none }

abbrev refuse_orders : String → (price sl : ℤ) → Option ℤ → ℕ → Answer Filled × ℕ
refuse_orders side price sl tp w = (error "no", w)

abbrev broken : Adapters
broken = record adapters { today_pnl = negsuc 399999 }

process-halted_example :
    process
      (rewired (ports broken) settings refuse_orders (λ id kind c w. (arm_returned none, w)))
      settings
      (gates no_tick fill false)
      payload
      state
    ≡ process (ports broken) settings (gates no_tick fill false) payload state
unfolding ◌-ℤ◌ ◌*ℤ◌ neg
process-halted_example =
    process-halted (ports broken) settings refuse_orders (λ id kind c w. (arm_returned none, w))
      no_tick fill false payload state refl

-- An allowed signal, with all that its order needs.
abbrev trace : DecisionTrace
trace = record {
  signal_id = "s1";
  origin_hash = "origin";
  policy_hash = "policy";
  results = [];
  action = allow;
  reason = "";
  route_kind = "";
}

abbrev priced : GateContext
priced = record context { sl = some (pos 5981000) }

conclude-awaits_example :
    awaits "s1" (conclude (ports adapters) settings "origin" "now" trace priced state).1.resolver
    ≡ true
unfolding conclude String-discrete
conclude-awaits_example =
    conclude-awaits (ports adapters) settings "origin" "now" trace trace priced state refl refl refl
      refl

on_outcome_resolved-again_example :
    on_outcome_resolved (ports adapters) "s1" (on_outcome_resolved (ports adapters) "s1" state)
    ≡ on_outcome_resolved (ports adapters) "s1" state
on_outcome_resolved-again_example = on_outcome_resolved-again (ports adapters) "s1" state

abbrev landed : PendingRecord
landed = record {
  id = "a";
  op = "add_record";
  registry = "afritensor-dossiers";
  registry_id = 2;
  agent = "execution";
  uri = "uri";
  checksum = "sum";
  checksum_algo = "sha256";
  metadata = ("signal_id", "s1") ∷ [];
  status = "Active";
  record_id = 0;
  index = 0;
  created_at = "now";
  attempts = 0;
  next_attempt_at = 0;
  last_error = "";
}

abbrev answer : AnchorResult
answer = record { transaction = "0xab"; record_id = 7; index = 0 }

superseded-on_anchored_example :
    let s' = on_outcome_resolved (ports adapters) "s1" (on_anchored settings landed answer state) in
    (status_of "s1" s'.anchor_index ≡ some (words "Superseded"))
    × (knows (update_key "afritensor-dossiers" 7) s'.outbox ≡ true)
unfolding String-discrete
superseded-on_anchored_example =
    superseded-on_anchored (ports adapters) settings landed answer "s1" no_rows (empty 0) state refl
      refl refl refl refl refl

-- One gate, which refuses a broken account.
abbrev refused : DecisionTrace
refused = record {
  signal_id = "id";
  origin_hash = "origin";
  policy_hash = "policy";
  results =
      record { name = "deadman"; status = binding; verdict = suppress; reason = "deadman_halt" }
      ∷ [];
  action = suppress;
  reason = "deadman_halt";
  route_kind = "";
}

process-said_example :
    said_in (process (ports broken) settings (deadman_gate ∷ []) payload state).1.decision_log
    ≡ [] ++ ("id", "suppress", "deadman_halt") ∷ []
unfolding process run step deadman_gate evaluate_deadman deadman_from conclude ◌-ℤ◌ ◌*ℤ◌ neg
    String-discrete
process-said_example =
    process-said (ports broken) settings (deadman_gate ∷ []) payload state refused refl
      (λ x w. refl, λ d w. refl) refl
