-- ===== src/Execution/Engine/Accounted.antt =====
-- zcastor/execution/engine.py: every decision that can be recorded is measured, and is logged once.
use zcastor_agent.Base.{
  ℕ, String, str_eq, Bool, true, false, Option, none, some, List, [], ◌∷◌, ◌++◌, map, any, ◌≡◌,
  refl, ap, ◌∙◌, arith, is_some, inl, inr, Bool-cases, if◌then◌else◌,
}
use zcastor_agent.Base.Int.{pos, leb_ℤ}
use zcastor_agent.Gates.Verdict.{Verdict, DecisionTrace, is_reject}
use zcastor_agent.Gates.Context.{GateContext}
use zcastor_agent.Execution.Orders.{Filled}
use zcastor_agent.Record.Dossier.{ProofSet, Dossier}
use zcastor_agent.Record.DecisionLog.{DecisionLog, LogEntry, Noted, add, entry_of, value}
use zcastor_agent.Resolve.Resolver.{
  OutcomeResolver, Registration, register, measured_of, is_pending,
}
use zcastor_agent.Execution.Engine.{
  Ports, Settings, EngineState, Execution, Acted, act, act_route, route_answer, act_execute,
  execute_with, execute_answer, book_fill, session_of,
}
use zcastor_agent.Execution.Engine.Recording.{
  registration_of, fill_of, dossier_of, log_decision, register_for_measurement, enqueue_dossier,
  publish, record_published, record_fill, record_state, record_decision, finish,
}

any-snoc :
    {A : Type 0} (f : A → Bool) (xs : List A) (x : A) → f x ≡ true → any f (xs ++ x ∷ []) ≡ true
any-snoc f [] x h = rw h refl
any-snoc f (y ∷ xs) x h = rw (any-snoc f xs x h) (ground arith)

register-is_pending :
    (now : ℕ) (g : Registration) (r : OutcomeResolver)
    → leb_ℤ g.ref_price (pos 0) ≡ false
    → is_pending g.signal_id (register now g r).pending ≡ true
unfolding register measured_of
register-is_pending now g r h = elim (Bool-cases (is_pending g.signal_id r.pending)) [
  | inl known ↦ rw (h, known) known
  | inr free ↦
      rw (h, free)
        (any-snoc (λ x. str_eq x.signal_id g.signal_id) r.pending (measured_of r.policy now g)
          (ground arith))
]

-- The entries of a log, each with what it says of the decision.
abbrev pub Said : Type 0
Said = String × String × String

abbrev pub said : LogEntry → Said
said l = (l.signal_id, l.action, l.reason)

-- The resolver waits for the outcome of the signal.
abbrev pub awaits : String → Option OutcomeResolver → Bool
awaits id none = false
awaits id (some r) = is_pending id r.pending

-- What the log says, as far as there is one.
abbrev pub said_in : Option DecisionLog → List Said
said_in none = []
said_in (some l) = map said l.entries

-- What a decision adds to it.
abbrev pub saying : DecisionTrace → List Said
saying t = if is_reject t.action then [] else (t.signal_id, value t.action, t.reason) ∷ []

map-snoc :
    {A B : Type 0} (f : A → B) (xs : List A) (x : A) → map f (xs ++ x ∷ []) ≡ map f xs ++ f x ∷ []
map-snoc f [] x = refl
map-snoc f (y ∷ xs) x = ap (◌∷◌ (f y)) (map-snoc f xs x)

add-said :
    (n : Noted) (t : DecisionTrace) (l : DecisionLog)
    → is_reject t.action ≡ false
    → map said (add n t l).entries
      ≡ map said l.entries ++ (n.signal_id, value t.action, t.reason) ∷ []
unfolding add entry_of
add-said n t l h = rw h (map-snoc said l.entries (entry_of n t))

module _ {W : Type 0} (q : Ports W) (e : Settings) where
  pub act-Keeps :
      (v : Verdict) (c : GateContext) (t : DecisionTrace) (w : W) (x : Option Execution)
      (t' : DecisionTrace)
      → (act q e v c t w).0 ≡ some (x, t')
      → is_reject t.action ≡ false
      → (t'.signal_id ≡ t.signal_id) × (is_reject t'.action ≡ false)
  unfolding act act_route route_answer act_execute execute_with execute_answer book_fill
  act-Keeps v c t w x t' h n = ground arith

  enqueue_dossier-log :
      (id checksum uri action agent : String) (s : EngineState W)
      → ((enqueue_dossier q e id checksum uri action agent s).decision_log ≡ s.decision_log)
        × ((enqueue_dossier q e id checksum uri action agent s).resolver ≡ s.resolver)
  unfolding enqueue_dossier
  enqueue_dossier-log id checksum uri action agent s = ground arith

  pub register-log :
      (c : GateContext) (t : DecisionTrace) (s : EngineState W)
      → (register_for_measurement q e c t s).decision_log ≡ s.decision_log
  unfolding register_for_measurement
  register-log c t s = ground arith

  register-awaits :
      (c : GateContext) (t : DecisionTrace) (s : EngineState W)
      → is_some s.resolver ≡ true
      → leb_ℤ (registration_of t c).ref_price (pos 0) ≡ false
      → awaits t.signal_id (register_for_measurement q e c t s).resolver ≡ true
  unfolding register_for_measurement
  register-awaits c t s r h = grind (arith, register-is_pending)

  log_decision-said :
      (at : String) (p : ProofSet) (checksum : Option String) (t : DecisionTrace)
      (s : EngineState W)
      → is_some s.decision_log ≡ true
      → is_reject t.action ≡ false
      → said_in (log_decision q e at p checksum t s).decision_log
        ≡ said_in s.decision_log ++ (t.signal_id, value t.action, t.reason) ∷ []
  log_decision-said at p checksum t s l h = grind (arith, add-said)

  record_published-resolver :
      (o : Option (String × String)) (at : String) (p : ProofSet) (t : DecisionTrace)
      (s : EngineState W)
      → (record_published q e o at p t s).resolver ≡ s.resolver
  unfolding record_published
  record_published-resolver none at p t s = refl
  record_published-resolver (some (checksum, uri)) at p t s =
      (enqueue_dossier-log t.signal_id checksum uri (value t.action) "execution" s).1

  record_fill-resolver :
      (f : Option Filled) (at : String) (p : ProofSet) (c : GateContext) (t : DecisionTrace)
      (s : EngineState W)
      → (record_fill q e f at p c t s).resolver ≡ s.resolver
  unfolding record_fill
  record_fill-resolver none at p c t s = refl
  record_fill-resolver (some f) at p c t s =
      record_published-resolver (publish q e (dossier_of e at p f t c) s.world).0 at p t
        (record s { world = (publish q e (dossier_of e at p f t c) s.world).1 })

  record_state-resolver :
      (o : Option String) (origin at : String) (f : Option Filled) (c : GateContext)
      (t : DecisionTrace) (s : EngineState W)
      → (record_state q e o origin at f c t s).resolver ≡ s.resolver
  unfolding record_state
  record_state-resolver none origin at f c t s = refl
  record_state-resolver (some state) origin at f c t s =
      record_fill-resolver f at
        (record { origin = origin; process = e.process_hash; state = state }) c t s

  pub finish-awaits :
      (a : Acted) (origin at : String) (c : GateContext) (s : EngineState W) (x : Option Execution)
      (t : DecisionTrace)
      → a ≡ some (x, t)
      → is_some s.resolver ≡ true
      → leb_ℤ (registration_of t c).ref_price (pos 0) ≡ false
      → awaits t.signal_id (finish q e a origin at c s).1.resolver ≡ true
  unfolding finish record_decision
  finish-awaits a origin at c s x t h r p =
      let s' = register_for_measurement q e c t s in
      let (o, w) = q.state_hash (session_of c) s'.world in
      rw (h, record_state-resolver o origin at (fill_of x) c t (record s' { world = w }))
        (register-awaits c t s r p)

  record_published-said :
      (o : Option (String × String)) (at : String) (p : ProofSet) (t : DecisionTrace)
      (s : EngineState W)
      → is_some o ≡ true
      → is_some s.decision_log ≡ true
      → is_reject t.action ≡ false
      → said_in (record_published q e o at p t s).decision_log
        ≡ said_in s.decision_log ++ (t.signal_id, value t.action, t.reason) ∷ []
  unfolding record_published
  record_published-said none at p t s o l h = cc
  record_published-said (some (checksum, uri)) at p t s o l h =
      let kept = (enqueue_dossier-log t.signal_id checksum uri (value t.action) "execution" s).0 in
      log_decision-said at p (some checksum) t
        (enqueue_dossier q e t.signal_id checksum uri (value t.action) "execution" s)
        (ap is_some kept ∙ l) h
      ∙ ap (λ d. said_in d ++ (t.signal_id, value t.action, t.reason) ∷ []) kept

  -- Where the publisher answers, the record adds one entry.
  record_fill-said :
      (f : Option Filled) (at : String) (p : ProofSet) (c : GateContext) (t : DecisionTrace)
      (s : EngineState W)
      → ((d : Dossier Filled) (w : W) → is_some (q.publish_dossier d w).0 ≡ true)
      → is_some s.decision_log ≡ true
      → is_reject t.action ≡ false
      → said_in (record_fill q e f at p c t s).decision_log
        ≡ said_in s.decision_log ++ (t.signal_id, value t.action, t.reason) ∷ []
  unfolding record_fill publish
  record_fill-said none at p c t s a l h = log_decision-said at p none t s l h
  record_fill-said (some f) at p c t s a l h =
      record_published-said _ at p t _ (ground (arith, a (dossier_of e at p f t c) s.world)) l h

  pub record_state-said :
      (o : Option String) (origin at : String) (f : Option Filled) (c : GateContext)
      (t : DecisionTrace) (s : EngineState W)
      → is_some o ≡ true
      → ((d : Dossier Filled) (w : W) → is_some (q.publish_dossier d w).0 ≡ true)
      → is_some s.decision_log ≡ true
      → is_reject t.action ≡ false
      → said_in (record_state q e o origin at f c t s).decision_log
        ≡ said_in s.decision_log ++ (t.signal_id, value t.action, t.reason) ∷ []
  unfolding record_state
  record_state-said none origin at f c t s o a l h = cc
  record_state-said (some state) origin at f c t s o a l h =
      record_fill-said f at (record { origin = origin; process = e.process_hash; state = state }) c
        t s a l h
