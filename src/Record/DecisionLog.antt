-- ===== src/Record/DecisionLog.antt =====
-- zcastor/record/decision_log.py: the decisions of a session. The `proof` of an entry is its three
-- hashes.
pub mod Totals
use zcastor_agent.Base.{
  ℕ, ◌+◌, String, str_eq, Bool, true, false, not, ◌&&◌, ◌||◌, Option, none, some, List, [], ◌∷◌,
  ◌++◌, map, keep_if, ltb, ◌==◌, if◌then◌else◌, opt_or,
}
use zcastor_agent.Base.Dict.{Dict, lookup, insert}
use zcastor_agent.Base.Sort.{sort_by}
use zcastor_agent.Base.TextOrder.{text_leb}
use zcastor_agent.Gates.Verdict.{
  Verdict, allow, reject, suppress, route, GateResult, DecisionTrace, recordable, binding_result,
  shadow_objections,
}

-- `Verdict.value`
abbrev pub value : Verdict → String
value allow = "allow"
value reject = "reject"
value suppress = "suppress"
value route = "route"

-- An entry of `entries`.
pub record LogEntry : Type 0 where
  pub signal_id : String
  pub at : String
  pub action : String
  pub reason : String
  pub bound_at : Option String
  pub also_objected : List String
  pub route_kind : Option String
  pub origin : String
  pub process : String
  pub state : String
  pub dossier : Option String

-- `DecisionLog`
pub record DecisionLog : Type 0 where
  pub session_date : String
  pub agent : String
  pub entries : List LogEntry

-- `DecisionLog.__init__`
abbrev pub new_log : String → String → DecisionLog
new_log session_date agent = record { session_date = session_date; agent = agent; entries = [] }

abbrev pub name_of : Option GateResult → Option String
name_of none = none
name_of (some r) = some r.name

-- `s or None`
abbrev pub or_none : String → Option String
or_none s = if str_eq s "" then none else some s

-- The arguments of `add` beside the trace.
pub record Noted : Type 0 where
  pub signal_id : String
  pub at : String
  pub origin : String
  pub process : String
  pub state : String
  pub dossier_checksum : Option String

unfoldable pub entry_of : Noted → DecisionTrace → LogEntry
entry_of n t = record {
  signal_id = n.signal_id;
  at = n.at;
  action = value t.action;
  reason = t.reason;
  bound_at = name_of (binding_result t);
  also_objected = map (λ r. r.name) (shadow_objections t);
  route_kind = or_none t.route_kind;
  origin = n.origin;
  process = n.process;
  state = n.state;
  dossier = n.dossier_checksum;
}

-- `add`
unfoldable pub add : Noted → DecisionTrace → DecisionLog → DecisionLog
add n t log =
    if recordable t then record log { entries = log.entries ++ entry_of n t ∷ [] } else log

-- `counts[k] = counts.get(k, 0) + n`
abbrev pub bump : String → ℕ → Dict ℕ → Dict ℕ
bump k n counts = insert k (opt_or (lookup k counts) 0 + n) counts

-- `dict(sorted(counts.items()))`
abbrev pub by_key : String × ℕ → String × ℕ → Bool
by_key (j, m) (k, n) = text_leb j k

abbrev pub count_all : (LogEntry → String) → List LogEntry → Dict ℕ → Dict ℕ
count_all key [] counts = counts
count_all key (e ∷ es) counts = count_all key es (bump (key e) 1 counts)

-- `summary`
unfoldable pub summary : DecisionLog → Dict ℕ
summary log = sort_by by_key (count_all (λ e. e.action) log.entries [])

-- The key of `reasons`: the counts go down, and reasons with one count are in the order of texts.
abbrev pub by_count : String × ℕ → String × ℕ → Bool
by_count (j, m) (k, n) = ltb n m || (m == n) && text_leb j k

-- A refusal with a reason.
abbrev pub refused : LogEntry → Bool
refused e = str_eq e.action "suppress" && not (str_eq e.reason "")

-- `reasons`, which is `ranked_reasons` as well: a dict in the order of its insertion.
unfoldable pub reasons : DecisionLog → Dict ℕ
reasons log = sort_by by_count (count_all (λ e. e.reason) (keep_if refused log.entries) [])

-- `build`, but for the schema.
pub record BuiltLog : Type 0 where
  pub session_date : String
  pub agent : String
  pub policy_version : String
  pub process : String
  pub totals : Dict ℕ
  pub suppression_reasons : Dict ℕ
  pub decisions : List LogEntry

unfoldable pub build : String → String → DecisionLog → BuiltLog
unfolding summary reasons
build policy_version process log = record {
  session_date = log.session_date;
  agent = log.agent;
  policy_version = policy_version;
  process = process;
  totals = summary log;
  suppression_reasons = reasons log;
  decisions = log.entries;
}

abbrev pub bump_all : Dict ℕ → Dict ℕ → Dict ℕ
bump_all [] out = out
bump_all ((k, n) ∷ d) out = bump_all d (bump k n out)

abbrev pub merge_into : List BuiltLog → Dict ℕ → Dict ℕ
merge_into [] out = out
merge_into (l ∷ ls) out = merge_into ls (bump_all l.totals out)

-- `merge_totals`
unfoldable pub merge_totals : List BuiltLog → Dict ℕ
merge_totals logs = sort_by by_key (merge_into logs [])
