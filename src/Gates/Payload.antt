-- ===== src/Gates/Payload.antt =====
-- zcastor/gates/direction.py, confidence.py and session.py: the gates that read the payload alone.

use Prim.Native.String.{◌++◌ as append}
use zcastor_agent.Base.{
  ℕ, String, str_eq, str_mem, true, false, not, ◌&&◌, Option, none, some, List, [], ◌∷◌, map, ltb,
  if◌then◌else◌, opt_or,
}
use zcastor_agent.Base.Text.{lower, upper, strip}
use zcastor_agent.Gates.Verdict.{allowing, rejecting, suppressing}
use zcastor_agent.Gates.Pipeline.{Gate}
use zcastor_agent.Gates.Context.{GateContext, Evaluation, return}

-- `DirectionGate.evaluate`, on what `signal.get("direction")` gives.
unfoldable pub direction_from : Option String → GateContext → Evaluation
direction_from none c = return (rejecting "direction_missing") c
direction_from (some raw) c =
    let normalised = upper (strip raw) in
    if str_mem normalised (opt_or c.policy.allowed_directions ("UP" ∷ "DOWN" ∷ []))
    then return allowing
        (record c { direction = some normalised; is_buy = some (str_eq normalised "UP") })
    else return (rejecting "direction_invalid") c

unfoldable pub evaluate_direction : GateContext → Evaluation
unfolding direction_from
evaluate_direction c = direction_from c.signal.direction c

unfoldable pub direction_gate : Gate GateContext
unfolding evaluate_direction
direction_gate = record {
  name = "direction";
  runs_when_routed = true;
  expensive = false;
  advises = false;
  evaluate = evaluate_direction;
}

-- `_RANK`
unfoldable pub rank : String → Option ℕ
rank level =
    if str_eq level "low"
    then some 0
    else if str_eq level "medium"
    then some 1
    else if str_eq level "high"
    then some 2
    else none

-- `ConfidenceGate.evaluate`, on the two ranks.
unfoldable pub confidence_from : Option ℕ → Option ℕ → String → GateContext → Evaluation
confidence_from none got raw c = return (suppressing "policy_invalid_min_confidence") c
confidence_from (some floor) none raw c = return (suppressing "confidence_unrecognised") c
confidence_from (some floor) (some got) raw c =
    if ltb got floor
    then return (suppressing (append "confidence_" raw)) c
    else return allowing (record c { confidence = some raw })

abbrev pub raw_confidence : GateContext → String
raw_confidence c = lower (strip (opt_or c.signal.confidence ""))

abbrev pub minimum_confidence : GateContext → String
minimum_confidence c = lower (strip (opt_or c.policy.min_confidence "high"))

unfoldable pub evaluate_confidence : GateContext → Evaluation
unfolding confidence_from
evaluate_confidence c =
    confidence_from (rank (minimum_confidence c)) (rank (raw_confidence c)) (raw_confidence c) c

unfoldable pub confidence_gate : Gate GateContext
unfolding evaluate_confidence
confidence_gate = record {
  name = "confidence";
  runs_when_routed = true;
  expensive = false;
  advises = false;
  evaluate = evaluate_confidence;
}

abbrev pub session_of : GateContext → String
session_of c = strip (opt_or c.signal.session "")

abbrev pub blocked_sessions : GateContext → List String
blocked_sessions c =
    map (λ s. lower (strip s)) (opt_or c.policy.blocked_sessions ("NY PM" ∷ "NY Close" ∷ []))

-- `SessionGate.evaluate`
unfoldable pub evaluate_session : GateContext → Evaluation
evaluate_session c =
    if not (str_eq (session_of c) "") && str_mem (lower (session_of c)) (blocked_sessions c)
    then return (suppressing "session_blocked") c
    else return allowing (record c { session = some (session_of c) })

unfoldable pub session_gate : Gate GateContext
unfolding evaluate_session
session_gate = record {
  name = "session";
  runs_when_routed = true;
  expensive = false;
  advises = false;
  evaluate = evaluate_session;
}
