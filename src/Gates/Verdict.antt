-- ===== src/Gates/Verdict.antt =====
-- zcastor/gates/base.py: verdicts, decisions and the trace of a run. The `detail` dictionaries are
-- left out: they are copied into the record, and nothing reads them to decide.
use zcastor_agent.Base.{
  String, str_mem, Bool, true, false, Option, none, some, List, [], ◌∷◌, find_first, keep_if,
  if◌then◌else◌, not,
}
use Prim.Native.String.{◌++◌ as append}

-- `Verdict`
pub data Verdict : Type 0 where
  allow reject suppress route : Verdict

-- `Decision`
pub record Decision : Type 0 where
  pub verdict : Verdict
  pub reason : String
  pub route_kind : String

-- `allow`, `reject` and `suppress`, under names that leave the constructors theirs.
abbrev pub allowing : Decision
allowing = record { verdict = allow; reason = ""; route_kind = "" }

abbrev pub rejecting : String → Decision
rejecting why = record { verdict = reject; reason = why; route_kind = "" }

abbrev pub suppressing : String → Decision
suppressing why = record { verdict = suppress; reason = why; route_kind = "" }

-- `route`, which raises on any other kind.
abbrev pub routing : String → Option Decision
routing kind =
    if str_mem kind ("fresh" ∷ "exhaustion" ∷ [])
    then some (record { verdict = route; reason = append "routed_" kind; route_kind = kind })
    else none

-- `Status`
pub data Status : Type 0 where
  binding shadow passed skipped advisory : Status

-- `GateResult`
pub record GateResult : Type 0 where
  pub name : String
  pub status : Status
  pub verdict : Verdict
  pub reason : String

-- `DecisionTrace`
pub record DecisionTrace : Type 0 where
  pub signal_id : String
  pub origin_hash : String
  pub policy_hash : String
  pub results : List GateResult
  pub action : Verdict
  pub reason : String
  pub route_kind : String

-- `is Verdict.ROUTE` and its like
abbrev pub is_route : Verdict → Bool
is_route route = true
is_route _ = false

abbrev pub is_allow : Verdict → Bool
is_allow allow = true
is_allow _ = false

abbrev pub is_reject : Verdict → Bool
is_reject reject = true
is_reject _ = false

abbrev pub is_suppress : Verdict → Bool
is_suppress suppress = true
is_suppress _ = false

abbrev pub is_binding : Status → Bool
is_binding binding = true
is_binding _ = false

abbrev pub is_shadow : Status → Bool
is_shadow shadow = true
is_shadow _ = false

-- `DecisionTrace.routed`, `.executable` and `.recordable`
abbrev pub routed : DecisionTrace → Bool
routed t = is_route t.action

abbrev pub executable : DecisionTrace → Bool
executable t = is_allow t.action

abbrev pub recordable : DecisionTrace → Bool
recordable t = not (is_reject t.action)

-- `DecisionTrace.binding`: the first result that is marked as binding.
unfoldable pub binding_result : DecisionTrace → Option GateResult
binding_result t = find_first (λ r. is_binding r.status) t.results

-- `DecisionTrace.shadow_objections`
unfoldable pub shadow_objections : DecisionTrace → List GateResult
shadow_objections t = keep_if (λ r. is_shadow r.status) t.results
