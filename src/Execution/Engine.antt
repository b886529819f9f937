-- ===== src/Execution/Engine.antt =====
-- zcastor/execution/engine.py: what follows from a decision. The broker, the watcher, the journal, the
-- zone memory, the publisher, the hashes and the clocks are `Ports` on a world `W`, which may answer
-- anything; the stack of gates, the decision log, the outbox, the resolver and the index are those of
-- their own modules.
pub mod Recording
pub mod Lifecycle
pub mod Watched
pub mod Halted
pub mod Accounted
pub mod Logged
pub mod Resolved
pub mod Superseded
use zcastor_agent.Base.{
  ℕ, String, str_eq, Bool, true, false, not, Option, none, some, List, [], ◌∷◌, if◌then◌else◌,
  opt_or,
}
use zcastor_agent.Base.Dict.{Dict, lookup}
use zcastor_agent.Base.Int.{ℤ, pos}
use zcastor_agent.Base.Text.{lower}
use zcastor_agent.Gates.Verdict.{Verdict, allow, route, suppress, DecisionTrace}
use zcastor_agent.Gates.Context.{Signal, Policy, Adapters, GateContext}
use zcastor_agent.Execution.Orders.{Answer, ok, error, Filled}
use zcastor_agent.Execution.Journal.{Trade}
use zcastor_agent.Record.Dossier.{Dossier}
use zcastor_agent.Record.DecisionLog.{DecisionLog}
use zcastor_agent.Anchor.Outbox.{Outbox}
use zcastor_agent.Anchor.Index.{AnchorIndex}
use zcastor_agent.Resolve.Resolver.{OutcomeResolver}

-- How a call of `arm` ends: it raises, or it returns, with an "error" or without one.
pub data ArmAnswer : Type 0 where
  arm_raised : String → ArmAnswer
  arm_returned : Option String → ArmAnswer

-- `_execute` and `_route` hand this on.
pub data Execution : Type 0 where
  failed : String → Execution
  armed : (route_kind : String) → Option String → Execution
  traded : Filled → Execution

-- What the engine calls. `none` stands for an exception that the engine catches.
pub record Ports (W : Type 0) : Type 0 where
  pub begin : W → W
  pub now : W → String × W
  pub clock : W → ℕ × W
  pub uuid : W → String × W
  pub origin_hash : Signal → String
  pub adapters : Signal → W → Adapters × W
  pub get_open_positions : W → List (ℕ × String) × W
  pub close_position : ℕ → String → W → Answer (ℕ × ℤ) × W
  pub market_order : (side : String) → (price sl : ℤ) → Option ℤ → W → Answer Filled × W
  pub open_trade : Trade → W → W
  pub record_entry : ℤ → String → String → W → W
  pub on_fill_notify : String → Filled → W → W
  pub arm : String → String → GateContext → W → ArmAnswer × W
  pub state_hash : String → W → Option String × W
  pub publish_dossier : Dossier Filled → W → Option (String × String) × W
  pub dossier_checksum : Dossier Filled → String

-- `Engine.__init__`: what stays as it is.
pub record Settings : Type 0 where
  pub policy : Policy
  pub policy_hash : String
  pub policy_version : String
  pub process_hash : String
  pub code_version : String
  pub environment : String
  pub registries : Dict String
  pub registry_ids : Dict ℕ
  pub volume : ℕ
  pub has_watcher : Bool
  pub has_publisher : Bool

-- The collaborators that the engine may do without, and the world.
pub record EngineState (W : Type 0) : Type 0 where
  pub decision_log : Option DecisionLog
  pub outbox : Option Outbox
  pub resolver : Option OutcomeResolver
  pub anchor_index : Option AnchorIndex
  pub world : W

-- The context that `process` builds.
abbrev pub fresh_context : Signal → Policy → Adapters → GateContext
fresh_context g p a = record {
  signal = g;
  policy = p;
  adapters = a;
  direction = none;
  is_buy = none;
  confidence = none;
  session = none;
  mid = none;
  execution_price = none;
  spread_pts = none;
  cost_pts = none;
  spread_ratio = none;
  tp_pts = none;
  sl_pts = none;
  available_pts = none;
  zone_status = none;
  zone_count = none;
  zone_phase = none;
  tf_regime = none;
  balance = none;
  start_of_day = none;
  tick_time = none;
  ask = none;
  bid = none;
  commission_pts = none;
  tp = none;
  sl = none;
  dollar_risk = none;
  open_positions = none;
  route_kind = none;
}

-- `trace.action = Verdict.SUPPRESS` with its reason
abbrev pub refuse : String → DecisionTrace → DecisionTrace
refuse why t = record t { action = suppress; reason = why }

-- What acting on a decision gives: nothing where a `KeyError` ends it.
abbrev pub Acted : Type 0
Acted = Option (Option Execution × DecisionTrace)

abbrev pub timeframe_of : GateContext → String
timeframe_of c = opt_or c.signal.timeframe ""

abbrev pub session_of : GateContext → String
session_of c = opt_or c.signal.session ""

-- The row of the journal for a fill of `_execute`.
abbrev pub trade_of : Settings → String → Filled → String → GateContext → Trade
trade_of e id f direction c = record {
  ticket = f.ticket;
  signal_id = id;
  direction = direction;
  timeframe = timeframe_of c;
  session = session_of c;
  route = "market";
  entry_price = f.price;
  sl = f.sl;
  tp = opt_or f.tp (pos 0);
  volume = e.volume;
  closed = false;
  pnl = pos 0;
}

module _ {W : Type 0} (q : Ports W) (e : Settings) where
  -- `_route`: what `arm` returned is only handed on.
  unfoldable pub route_answer : ArmAnswer → DecisionTrace → Option Execution × DecisionTrace
  route_answer (arm_raised why) t = (some (failed why), refuse "watcher_error" t)
  route_answer (arm_returned problem) t = (some (armed t.route_kind problem), t)

  unfoldable pub act_route : GateContext → DecisionTrace → W → Acted × W
  unfolding route_answer
  act_route c t w =
      let (a, w') = q.arm t.signal_id t.route_kind c w in
      if e.has_watcher
      then (some (route_answer a t), w')
      else (some (none, refuse "watcher_disabled" t), w)

  -- `_execute` after a fill.
  unfoldable pub book_fill :
      Filled → Option String → Option ℤ → GateContext → DecisionTrace → W → Acted × W
  book_fill f none mid c t w = (none, w)
  book_fill f (some direction) none c t w =
      (none, q.open_trade (trade_of e t.signal_id f direction c) w)
  book_fill f (some direction) (some mid) c t w =
      let w' = q.open_trade (trade_of e t.signal_id f direction c) w in
      let w'' = q.record_entry mid (lower direction) (opt_or c.signal.timeframe "1h") w' in
      (some (some (traded f), t), q.on_fill_notify t.signal_id f w'')

  -- `_execute` on the answer of the venue.
  unfoldable pub execute_answer : Answer Filled → GateContext → DecisionTrace → W → Acted × W
  unfolding book_fill
  execute_answer (error why) c t w = (some (some (failed why), refuse "order_failed" t), w)
  execute_answer (ok f) c t w = book_fill f c.direction c.mid c t w

  -- `_execute`, once the three values that the order needs are there.
  unfoldable pub execute_with :
      Option Bool → Option ℤ → Option ℤ → GateContext → DecisionTrace → W → Acted × W
  unfolding execute_answer
  execute_with (some buys) (some price) (some sl) c t w =
      let (a, w') = q.market_order (if buys then "BUY" else "SELL") price sl c.tp w in
      execute_answer a c t w'
  execute_with (some buys) (some price) none c t w = (none, w)
  execute_with (some buys) none sl c t w = (none, w)
  execute_with none price sl c t w = (none, w)

  unfoldable pub act_execute : GateContext → DecisionTrace → W → Acted × W
  unfolding execute_with
  act_execute c t w = execute_with c.is_buy c.execution_price c.sl c t w

  -- `process` on the action.
  unfoldable pub act : Verdict → GateContext → DecisionTrace → W → Acted × W
  unfolding act_route act_execute
  act route c t w = act_route c t w
  act allow c t w = act_execute c t w
  act v c t w = (some (none, t), w)

  -- The loop of `_close_exhausted_direction`.
  unfoldable pub close_all : String → List (ℕ × String) → W → List ℕ × W
  close_all want [] w = ([], w)
  close_all want ((ticket, side) ∷ ps) w =
      let (a, w') = q.close_position ticket want w in
      let (closed, w'') = close_all want ps w' in
      let skipped = close_all want ps w in
      if str_eq side want
      then (elim a [ ok r ↦ ticket ∷ closed | error why ↦ closed ], w'')
      else skipped

  -- `_close_exhausted_direction`: nothing where the direction is missing.
  unfoldable pub close_in : Option String → W → Option (List ℕ) × W
  unfolding close_all
  close_in none w = (none, w)
  close_in (some direction) w =
      let (ps, w') = q.get_open_positions w in
      let (closed, w'') = close_all (if str_eq direction "UP" then "BUY" else "SELL") ps w' in
      (some closed, w'')

  unfoldable pub close_exhausted_direction : GateContext → W → Option (List ℕ) × W
  unfolding close_in
  close_exhausted_direction c w =
      let blocked = close_in c.direction w in
      if str_eq (opt_or c.zone_status "") "blocked" then blocked else (some [], w)
