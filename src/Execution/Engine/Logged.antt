-- ===== src/Execution/Engine/Logged.antt =====
-- zcastor/execution/engine.py: `process` accounts for its decision, whatever it comes to.
use mathlib.Core.Option.{some-injective}
use mathlib.Core.List.{append-nil}
use zcastor_agent.Base.{
  ℕ, String, Bool, true, false, Option, none, some, List, [], ◌∷◌, ◌++◌, ◌≡◌, refl, ap, ◌∙◌, sym,
  is_some, if◌then◌else◌,
}
use zcastor_agent.Base.Int.{pos, leb_ℤ}
use zcastor_agent.Gates.Verdict.{DecisionTrace, is_reject}
use zcastor_agent.Gates.Pipeline.{Gate, run}
use zcastor_agent.Gates.Context.{Signal, GateContext}
use zcastor_agent.Execution.Orders.{Filled}
use zcastor_agent.Record.Dossier.{Dossier}
use zcastor_agent.Record.DecisionLog.{value}
use zcastor_agent.Execution.Engine.{
  Ports, Settings, EngineState, Execution, Acted, act, close_exhausted_direction, session_of,
  fresh_context,
}
use zcastor_agent.Execution.Engine.Recording.{
  registration_of, fill_of, register_for_measurement, record_decision, finish, act_and_finish,
  conclude, process,
}
use zcastor_agent.Execution.Engine.Accounted.{
  awaits, said_in, saying, act-Keeps, finish-awaits, record_state-said, register-log,
}

module _ {W : Type 0} (q : Ports W) (e : Settings) where
  -- The hashes of the state, and the publisher, always answer.
  abbrev pub Answers : Type 0
  Answers =
      ((x : String) (w : W) → is_some (q.state_hash x w).0 ≡ true)
      × ((d : Dossier Filled) (w : W) → is_some (q.publish_dossier d w).0 ≡ true)

  finish-said :
      (a : Acted) (origin at : String) (c : GateContext) (s : EngineState W) (x : Option Execution)
      (t : DecisionTrace)
      → a ≡ some (x, t)
      → Answers
      → is_some s.decision_log ≡ true
      → is_reject t.action ≡ false
      → said_in (finish q e a origin at c s).1.decision_log
        ≡ said_in s.decision_log ++ (t.signal_id, value t.action, t.reason) ∷ []
  unfolding finish record_decision
  finish-said a origin at c s x t h k l n =
      let s' = register_for_measurement q e c t s in
      let (o, w) = q.state_hash (session_of c) s'.world in
      rw h (
        record_state-said q e o origin at (fill_of x) c t (record s' { world = w })
          (k.0 (session_of c) s'.world) k.1 (ap is_some (register-log q e c t s) ∙ l) n
        ∙ ap (λ d. said_in d ++ (t.signal_id, value t.action, t.reason) ∷ [])
            (register-log q e c t s))

  -- Acting on a decision that can be recorded keeps that and the signal, or a `KeyError` ends it.
  finish-act :
      (a : Acted) (origin at : String) (c : GateContext) (s : EngineState W) (t : DecisionTrace)
      → (finish q e a origin at c s).0 ≡ some t
      → (x : Option Execution) × (a ≡ some (x, t))
  unfolding finish
  finish-act none origin at c s t h = cc
  finish-act (some (x, t')) origin at c s t h = (x, ap (λ u. some (x, u)) (some-injective t' t h))

  act_and_finish-said :
      (closed : Option (List ℕ)) (origin at : String) (c : GateContext) (t t' : DecisionTrace)
      (s : EngineState W)
      → (act_and_finish q e closed origin at c t s).0 ≡ some t'
      → is_reject t.action ≡ false
      → Answers
      → is_some s.decision_log ≡ true
      → said_in (act_and_finish q e closed origin at c t s).1.decision_log
        ≡ said_in s.decision_log ++ saying t'
  unfolding act_and_finish
  act_and_finish-said none origin at c t t' s h n k l = cc
  act_and_finish-said (some closed) origin at c t t' s h n k l =
      let (a, w) = act q e t.action c t s.world in
      let (x, acted) = finish-act a origin at c (record s { world = w }) t' h in
      let kept = (act-Keeps q e t.action c t s.world x t' acted n).1 in
      rw kept (finish-said a origin at c (record s { world = w }) x t' acted k l kept)

  conclude_from-said :
      (b : Bool) (t t' : DecisionTrace) (s : EngineState W)
      (r : Option DecisionTrace × EngineState W)
      → is_reject t.action ≡ b
      → (if b then (some t, s) else r).0 ≡ some t'
      → (r.0 ≡ some t' → b ≡ false → said_in r.1.decision_log ≡ said_in s.decision_log ++ saying t')
      → said_in (if b then (some t, s) else r).1.decision_log ≡ said_in s.decision_log ++ saying t'
  conclude_from-said true t t' s r b h k =
      rw (sym (some-injective t t' h), b) (sym (append-nil (said_in s.decision_log)))
  conclude_from-said false t t' s r b h k = k h refl

  -- A decision that the gates have taken and that `process` returns is in the log once, with the
  -- signal, the action and the reason that it ends with, and a rejected one is not, as long as the
  -- hashes and the publisher answer.
  pub conclude-said :
      (origin at : String) (t t' : DecisionTrace) (c : GateContext) (s : EngineState W)
      → (conclude q e origin at t c s).0 ≡ some t'
      → Answers
      → is_some s.decision_log ≡ true
      → said_in (conclude q e origin at t c s).1.decision_log ≡ said_in s.decision_log ++ saying t'
  unfolding conclude
  conclude-said origin at t t' c s h k l =
      let (closed, w) = close_exhausted_direction q e c s.world in
      let s' = record s { world = w } in
      conclude_from-said (is_reject t.action) t t' s (act_and_finish q e closed origin at c t s')
        refl h (λ r n. act_and_finish-said closed origin at c t t' s' r n k l)

  -- The same of `process`, with any stack of gates.
  pub process-said :
      (gs : List (Gate GateContext)) (g : Signal) (s : EngineState W) (t : DecisionTrace)
      → (process q e gs g s).0 ≡ some t
      → Answers
      → is_some s.decision_log ≡ true
      → said_in (process q e gs g s).1.decision_log ≡ said_in s.decision_log ++ saying t
  unfolding process
  process-said gs g s t h k l =
      let (at, w) = q.now s.world in
      let (id, w') = q.uuid w in
      let (a, w'') = q.adapters g (q.begin w') in
      let (t', c) = run gs (fresh_context g e.policy a) (q.origin_hash g) id e.policy_hash in
      conclude-said (q.origin_hash g) at t' t c (record s { world = w'' }) h k l

  act_and_finish-awaits :
      (closed : Option (List ℕ)) (origin at : String) (c : GateContext) (t t' : DecisionTrace)
      (s : EngineState W)
      → (act_and_finish q e closed origin at c t s).0 ≡ some t'
      → is_reject t.action ≡ false
      → is_some s.resolver ≡ true
      → leb_ℤ (registration_of t' c).ref_price (pos 0) ≡ false
      → awaits t'.signal_id (act_and_finish q e closed origin at c t s).1.resolver ≡ true
  unfolding act_and_finish
  act_and_finish-awaits none origin at c t t' s h n r p = cc
  act_and_finish-awaits (some closed) origin at c t t' s h n r p =
      let (a, w) = act q e t.action c t s.world in
      let (x, acted) = finish-act a origin at c (record s { world = w }) t' h in
      finish-awaits q e a origin at c (record s { world = w }) x t' acted r p

  -- A decision that is not a rejection, with a reference price, is awaited by the resolver once
  -- `process` has returned, whatever the hashes, the publisher, the venue and the watcher answer.
  pub conclude-awaits :
      (origin at : String) (t t' : DecisionTrace) (c : GateContext) (s : EngineState W)
      → (conclude q e origin at t c s).0 ≡ some t'
      → is_reject t.action ≡ false
      → is_some s.resolver ≡ true
      → leb_ℤ (registration_of t' c).ref_price (pos 0) ≡ false
      → awaits t'.signal_id (conclude q e origin at t c s).1.resolver ≡ true
  unfolding conclude
  conclude-awaits origin at t t' c s h n r p =
      let (closed, w) = close_exhausted_direction q e c s.world in
      let rest = act_and_finish q e closed origin at c t (record s { world = w }) in
      let taken : (if is_reject t.action then (some t, s) else rest) ≡ rest = rw n refl in
      ap (λ x. awaits t'.signal_id x.1.resolver) taken
      ∙ act_and_finish-awaits closed origin at c t t' (record s { world = w })
          (ap (λ x. x.0) (sym taken) ∙ h) n r p
