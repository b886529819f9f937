-- ===== src/Gates/Pipeline.antt =====
-- zcastor/gates/pipeline.py: the gate stack, over any type of context. A gate is its declared
-- properties and a function on the context, which the gate may write.
pub mod Order
pub mod Action
pub mod Named
pub mod Advisory
pub mod Kept
use Prim.Native.String.{◌++◌ as append}
use zcastor_agent.Base.{
  String, str_eq, str_mem, Bool, true, false, Option, none, some, List, [], ◌∷◌, ◌++◌, ◌&&◌, not,
  is_some, if◌then◌else◌,
}
use zcastor_agent.Gates.Verdict.{
  Verdict, allow, reject, suppress, route, Decision, suppressing, Status, binding, shadow, passed,
  skipped, advisory, GateResult, DecisionTrace,
}

-- What a call of `evaluate` does: it returns a decision, raises, or returns something else.
pub data Outcome : Type 0 where
  decided : Decision → Outcome
  raised : Outcome
  not_a_decision : Outcome

-- `Gate`. `evaluate` returns the context as well, since a gate may `put` into it.
pub record Gate (C : Type 0) : Type 0 where
  pub name : String
  pub runs_when_routed : Bool
  pub expensive : Bool
  pub advises : Bool
  pub evaluate : C → Outcome × C

module _ {C : Type 0} where
  -- `GatePipeline._validate`, with the names seen so far: `none` is a `ValueError`.
  unfoldable pub validate : List String → List (Gate C) → Option (List (Gate C))
  validate seen [] = some []
  validate seen (g ∷ gs) =
      let rest = validate (g.name ∷ seen) gs in
      if str_mem g.name seen
      then none
      else if str_eq g.name "unnamed"
      then none
      else elim rest [ none ↦ none | some ok ↦ some (g ∷ ok) ]

-- `_evaluate`: a gate that raises, or breaks its contract, suppresses.
unfoldable pub judge : String → Outcome → Decision
judge name (decided d) = d
judge name raised = suppressing (append "gate_error:" name)
judge name not_a_decision = suppressing (append "gate_contract:" name)

-- The variables of the loop in `run`: the trace, `routed`, and `bound` with its reason.
pub record Progress : Type 0 where
  pub results : List GateResult
  pub action : Verdict
  pub reason : String
  pub route_kind : String
  pub routed : Bool
  pub bound : Option Decision

abbrev pub result : String → Status → Verdict → String → GateResult
result n s v r = record { name = n; status = s; verdict = v; reason = r }

-- `trace.results.append(...)`
abbrev pub note : GateResult → Progress → Progress
note r p = record p { results = p.results ++ r ∷ [] }

abbrev pub reason_of : Option Decision → String
reason_of none = ""
reason_of (some d) = d.reason

-- One round's effect once the gate has decided, and whether the loop goes on. Its arguments repeat
-- the verdict and `bound`, on which it splits.
unfoldable pub settle : String → Decision → Verdict → Option Decision → Progress → Progress × Bool
settle name d reject b p = (
  note (result name binding reject d.reason) (record p { action = reject; reason = d.reason }),
  false,
)
settle name d suppress none p = (
  note (result name binding suppress d.reason) (record p {
    bound = some d;
    routed = false;
    action = suppress;
    reason = d.reason;
    route_kind = "";
  }),
  true,
)
settle name d suppress (some b) p = (note (result name shadow suppress d.reason) p, true)
settle name d route (some b) p = (note (result name shadow route d.reason) p, true)
settle name d route none p = (
  note (result name binding route d.reason)
      (record p { routed = true; action = route; reason = d.reason; route_kind = d.route_kind }),
  true,
)
settle name d allow b p = (note (result name passed allow "") p, true)

module _ {C : Type 0} where
  -- Why a gate is not run, if it is not.
  unfoldable pub skip : Gate C → Progress → Option String
  skip g p =
      if p.routed && not g.runs_when_routed
      then some "skipped: routed to watcher"
      else if is_some p.bound && g.expensive
      then some (append "skipped: already suppressed (" (append (reason_of p.bound) ")"))
      else none

  -- A gate that is run: an advisory one is noted and changes nothing.
  unfoldable pub apply : Gate C → Decision → Progress → Progress × Bool
  unfolding settle
  apply g d p =
      if g.advises
      then (note (result g.name advisory d.verdict d.reason) p, true)
      else settle g.name d d.verdict p.bound p

  -- One round of the loop: the new variables, the context, and whether the loop goes on.
  unfoldable pub step : Gate C → Progress → C → Progress × C × Bool
  unfolding skip apply judge
  step g p c = elim (skip g p) [
    | some why ↦ (note (result g.name skipped allow why) p, c, true)
    | none ↦
        let (out, c') = g.evaluate c in
        let (p', more) = apply g (judge g.name out) p in (p', c', more)
  ]

  -- The loop.
  unfoldable pub run_from : List (Gate C) → Progress → C → Progress × C
  run_from [] p c = (p, c)
  run_from (g ∷ gs) p c =
      let (p', c', more) = step g p c in
      let rest = run_from gs p' c' in if more then rest else (p', c')

abbrev pub start : Progress
start = record {
  results = [];
  action = allow;
  reason = "";
  route_kind = "";
  routed = false;
  bound = none;
}

module _ {C : Type 0} where
  -- `GatePipeline.run`, with the context as the gates leave it.
  unfoldable pub run : List (Gate C) → C → String → String → String → DecisionTrace × C
  unfolding run_from
  run gs c origin_hash signal_id policy_hash =
      let (p, c') = run_from gs start c in
      (
        record {
          signal_id = signal_id;
          origin_hash = origin_hash;
          policy_hash = policy_hash;
          results = p.results;
          action = p.action;
          reason = p.reason;
          route_kind = p.route_kind;
        },
        c',
      )
