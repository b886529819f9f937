-- ===== src/Record/Dossier.antt =====
-- zcastor/record/dgml.py: what the dossier of a decision says. The schema, the provenance block, which
-- starts empty, and the notes are left out.
use zcastor_agent.Base.{String, ◌||◌, Option, none, some, List, map, if◌then◌else◌, opt_or}
use zcastor_agent.Base.Int.{ℤ, pos, pos_part, ◌*ℤ◌}
use zcastor_agent.Gates.Verdict.{GateResult, DecisionTrace, binding_result, shadow_objections}
use zcastor_agent.Gates.Context.{GateContext}
use zcastor_agent.Gates.Feed.{round_signed, is_zero}
use zcastor_agent.Record.DecisionLog.{value, name_of, or_none}

-- `ProofSet`
pub record ProofSet : Type 0 where
  pub origin : String
  pub process : String
  pub state : String

-- `thesis_from_trace`. No gate puts a timeframe, so that the thesis has none.
pub record Thesis : Type 0 where
  pub direction : String
  pub timeframe : String
  pub entry_price : Option ℤ
  pub target : Option ℤ
  pub stop : Option ℤ
  pub target_pts : Option ℤ
  pub stop_pts : Option ℤ
  pub risk_reward : Option ℤ
  pub action : String
  pub route_kind : Option String

-- `_rounded`: whole points.
abbrev pub rounded : Option ℤ → Option ℤ
rounded none = none
rounded (some v) = some (round_signed v 100)

-- `_ratio`, in hundredths, of two distances.
abbrev pub ratio : Option ℤ → Option ℤ → Option ℤ
ratio none sl = none
ratio (some tp) none = none
ratio (some tp) (some sl) =
    if is_zero tp || is_zero sl then none else some (round_signed (tp *ℤ pos 100) (pos_part sl))

unfoldable pub thesis_from_trace : DecisionTrace → GateContext → Thesis
thesis_from_trace t c = record {
  direction = opt_or c.direction "";
  timeframe = "";
  entry_price = c.execution_price;
  target = c.tp;
  stop = c.sl;
  target_pts = rounded c.tp_pts;
  stop_pts = rounded c.sl_pts;
  risk_reward = ratio c.tp_pts c.sl_pts;
  action = value t.action;
  route_kind = or_none t.route_kind;
}

-- `decision_from_trace`
pub record Judged : Type 0 where
  pub action : String
  pub reason : String
  pub bound_at : Option String
  pub also_objected : List String
  pub gates : List GateResult

unfoldable pub decision_from_trace : DecisionTrace → Judged
decision_from_trace t = record {
  action = value t.action;
  reason = t.reason;
  bound_at = name_of (binding_result t);
  also_objected = map (λ r. r.name) (shadow_objections t);
  gates = t.results;
}

-- `build_dossier`, over the type of what was executed.
pub record Dossier (E : Type 0) : Type 0 where
  pub signal_id : String
  pub emitted_at : String
  pub agent : String
  pub proofs : ProofSet
  pub policy_version : String
  pub code_version : String
  pub thesis : Thesis
  pub decision : Judged
  pub execution : Option E
