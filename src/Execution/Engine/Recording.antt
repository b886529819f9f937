-- ===== src/Execution/Engine/Recording.antt =====
-- zcastor/execution/engine.py: what is written down of a decision, and `process` as a whole.
use zcastor_agent.Base.{ℕ, String, str_eq, Option, none, some, List, [], ◌∷◌, if◌then◌else◌, opt_or}
use zcastor_agent.Base.Dict.{lookup}
use zcastor_agent.Base.Int.{pos}
use zcastor_agent.Gates.Verdict.{is_reject, DecisionTrace}
use zcastor_agent.Gates.Pipeline.{Gate, run}
use zcastor_agent.Gates.Context.{Signal, GateContext}
use zcastor_agent.Gates.Feed.{or_price}
use zcastor_agent.Execution.Orders.{Filled}
use zcastor_agent.Record.Dossier.{ProofSet, Dossier, thesis_from_trace, decision_from_trace}
use zcastor_agent.Record.DecisionLog.{add, value}
use zcastor_agent.Anchor.Outbox.{Work, enqueue}
use zcastor_agent.Resolve.Resolver.{Registration, register}
use zcastor_agent.Execution.Engine.{
  Ports, Settings, EngineState, Execution, traded, fresh_context, session_of, timeframe_of, act,
  close_exhausted_direction,
}

-- The arguments of `register`.
abbrev pub registration_of : DecisionTrace → GateContext → Registration
registration_of t c = record {
  signal_id = t.signal_id;
  direction = opt_or c.direction (opt_or c.signal.direction "");
  ref_price = or_price (opt_or c.mid (pos 0)) (opt_or c.execution_price (pos 0));
  timeframe = timeframe_of c;
  session = session_of c;
  action = value t.action;
  sl_pts = opt_or c.sl_pts (pos 0);
  tp_pts = opt_or c.tp_pts (pos 0);
  spread_pts = c.spread_pts;
}

-- The ticket's fill, of what was executed.
abbrev pub fill_of : Option Execution → Option Filled
fill_of (some (traded f)) = some f
fill_of _ = none

-- `build_dossier` with the arguments of `_record`.
abbrev pub dossier_of :
    Settings → String → ProofSet → Filled → DecisionTrace → GateContext → Dossier Filled
dossier_of e at proofs f t c = record {
  signal_id = t.signal_id;
  emitted_at = at;
  agent = "execution";
  proofs = proofs;
  policy_version = e.policy_version;
  code_version = e.code_version;
  thesis = thesis_from_trace t c;
  decision = decision_from_trace t;
  execution = some f;
}

-- The unit of work of `_enqueue_dossier_for`.
abbrev pub dossier_work : Settings → (id checksum uri action agent now : String) → Work
dossier_work e id checksum uri action agent now = record {
  op = "add_record";
  registry = opt_or (lookup "dossiers" e.registries) "afritensor-dossiers";
  registry_id = opt_or (lookup "dossiers" e.registry_ids) 0;
  agent = agent;
  uri = uri;
  checksum = checksum;
  metadata =
      ("signal_id", id)
      ∷ ("action", action)
      ∷ ("policy", e.policy_hash)
      ∷ ("env", if str_eq e.environment "" then "local" else e.environment)
      ∷ [];
  status = "Active";
  record_id = 0;
  index = 0;
  created_at = now;
}

module _ {W : Type 0} (q : Ports W) (e : Settings) where
  -- `_register_for_measurement`
  unfoldable pub register_for_measurement :
      GateContext → DecisionTrace → EngineState W → EngineState W
  register_for_measurement c t s = elim s.resolver [
    | none ↦ s
    | some r ↦
        let (now, w) = q.clock s.world in
        record s { resolver = some (register now (registration_of t c) r); world = w }
  ]

  -- `_enqueue_dossier_for`
  unfoldable pub enqueue_dossier :
      (id checksum uri action agent : String) → EngineState W → EngineState W
  enqueue_dossier id checksum uri action agent s = elim s.outbox [
    | none ↦ s
    | some b ↦
        let (now, w) = q.now s.world in
        let (unique, w') = q.uuid w in
        record s {
          outbox = some (enqueue unique (dossier_work e id checksum uri action agent now) b).1;
          world = w';
        }
  ]

  -- The dossier's checksum and address: published before it is queued, if there is a publisher.
  unfoldable pub publish : Dossier Filled → W → Option (String × String) × W
  publish d w =
      let published = q.publish_dossier d w in
      if e.has_publisher then published else (some (q.dossier_checksum d, ""), w)

  -- `self.decision_log.add`
  abbrev pub log_decision :
      String → ProofSet → Option String → DecisionTrace → EngineState W → EngineState W
  log_decision at proofs checksum t s = record s {
    decision_log = elim s.decision_log [
      | none ↦ none
      | some l ↦ some (
          add
            (record {
              signal_id = t.signal_id;
              at = at;
              origin = proofs.origin;
              process = proofs.process;
              state = proofs.state;
              dossier_checksum = checksum;
            })
            t l)
    ];
  }

  -- `_record` on what `publish_dossier` gave.
  unfoldable pub record_published :
      Option (String × String) → String → ProofSet → DecisionTrace → EngineState W → EngineState W
  unfolding enqueue_dossier
  record_published none at proofs t s = s
  record_published (some (checksum, uri)) at proofs t s =
      log_decision at proofs (some checksum) t
        (enqueue_dossier t.signal_id checksum uri (value t.action) "execution" s)

  -- `_record` once the proofs are there, on the fill if there was one.
  unfoldable pub record_fill :
      Option Filled
      → String
      → ProofSet
      → GateContext
      → DecisionTrace
      → EngineState W
      → EngineState W
  unfolding publish record_published
  record_fill none at proofs c t s = log_decision at proofs none t s
  record_fill (some f) at proofs c t s =
      let (published, w) = publish (dossier_of e at proofs f t c) s.world in
      record_published published at proofs t (record s { world = w })

  unfoldable pub record_state :
      Option String
      → String
      → String
      → Option Filled
      → GateContext
      → DecisionTrace
      → EngineState W
      → EngineState W
  unfolding record_fill
  record_state none origin at fill c t s = s
  record_state (some state) origin at fill c t s =
      record_fill fill at (record { origin = origin; process = e.process_hash; state = state }) c t
        s

  -- `_record`
  unfoldable pub record_decision :
      String
      → Option Execution
      → String
      → GateContext
      → DecisionTrace
      → EngineState W
      → EngineState W
  unfolding record_state
  record_decision origin execution at c t s =
      let (state, w) = q.state_hash (session_of c) s.world in
      record_state state origin at (fill_of execution) c t (record s { world = w })

  -- `process` after acting: nothing more where a `KeyError` ended it.
  unfoldable pub finish :
      Option (Option Execution × DecisionTrace)
      → String
      → String
      → GateContext
      → EngineState W
      → Option DecisionTrace × EngineState W
  unfolding register_for_measurement record_decision
  finish none origin at c s = (none, s)
  finish (some (execution, t)) origin at c s =
      (some t, record_decision origin execution at c t (register_for_measurement c t s))

  -- `process` once the positions of a spent direction are closed.
  unfoldable pub act_and_finish :
      Option (List ℕ)
      → String
      → String
      → GateContext
      → DecisionTrace
      → EngineState W
      → Option DecisionTrace × EngineState W
  unfolding act finish
  act_and_finish none origin at c t s = (none, s)
  act_and_finish (some closed) origin at c t s =
      let (acted, w) = act q e t.action c t s.world in
      finish acted origin at c (record s { world = w })

  -- `process` on the outcome of the gates.
  unfoldable pub conclude :
      String
      → String
      → DecisionTrace
      → GateContext
      → EngineState W
      → Option DecisionTrace × EngineState W
  unfolding close_exhausted_direction act_and_finish
  conclude origin at t c s =
      let (closed, w) = close_exhausted_direction q e c s.world in
      let rest = act_and_finish closed origin at c t (record s { world = w }) in
      if is_reject t.action then (some t, s) else rest

  -- `process`, with the stack of the pipeline: `none` where a `KeyError` leaves it.
  unfoldable pub process :
      List (Gate GateContext) → Signal → EngineState W → Option DecisionTrace × EngineState W
  unfolding run conclude
  process gs g s =
      let (at, w) = q.now s.world in
      let (id, w') = q.uuid w in
      let (a, w'') = q.adapters g (q.begin w') in
      let (t, c) = run gs (fresh_context g e.policy a) (q.origin_hash g) id e.policy_hash in
      conclude (q.origin_hash g) at t c (record s { world = w'' })
