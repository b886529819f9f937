-- ===== src/Gates/Structure.antt =====
-- zcastor/gates/zone.py, coherence.py, regime.py, _regime.py and cooldown.py: the gates that judge
-- where and when a signal comes.
use zcastor_agent.Base.{
  ℕ, ◌+◌, ◌*◌, String, str_eq, str_mem, Bool, true, false, not, ◌||◌, Option, none, some, [], ◌∷◌,
  map, leb, ◌==◌, if◌then◌else◌, opt_or,
}
use zcastor_agent.Base.Dict.{Dict, lookup}
use zcastor_agent.Base.Int.{ℤ, pos, ◌-ℤ◌, ltb_ℤ, abs}
use zcastor_agent.Base.Text.{lower, upper, strip}
use zcastor_agent.Gates.Verdict.{Decision, allowing, suppressing, route}
use zcastor_agent.Gates.Pipeline.{Gate}
use zcastor_agent.Gates.Context.{GateContext, Evaluation, return, need}

-- `route("exhaustion")` and `route("fresh")`
abbrev pub route_exhaustion : Decision
route_exhaustion = record {
  verdict = route;
  reason = "routed_exhaustion";
  route_kind = "exhaustion";
}

abbrev pub route_fresh : Decision
route_fresh = record { verdict = route; reason = "routed_fresh"; route_kind = "fresh" }

-- `ZoneGate.evaluate`
unfoldable pub evaluate_zone : GateContext → Evaluation
evaluate_zone c = need c.mid c λ price. need c.direction c λ direction.
    let dir = lower direction in
    let tf = opt_or c.signal.timeframe "1h" in
    let (answer, count) = c.adapters.check_zone price dir tf in
    let status = lower (opt_or answer "") in
    let c' = record c {
      zone_status = some status;
      zone_count = some count;
      zone_phase = some (c.adapters.zone_phase price dir tf);
    } in
    if str_eq status "blocked" then return route_exhaustion c' else return allowing c'

-- `FlipConfirmGate.evaluate`
unfoldable pub evaluate_flip_confirm : GateContext → Evaluation
evaluate_flip_confirm c =
    if not c.signal.zone_flip_pending
    then return allowing c
    else if str_eq (opt_or c.zone_status "") "elevated"
    then return allowing c
    else return (suppressing "flip_pending_no_confirmation") c

-- `SignalCoherenceGate.evaluate`
unfoldable pub evaluate_signal_coherence : GateContext → Evaluation
evaluate_signal_coherence c = need c.direction c λ direction.
    let status = lower (
      opt_or (c.adapters.check_signal_coherence (lower direction) (opt_or c.signal.timeframe "1h"))
        "") in
    if not (str_eq status "caution")
    then return allowing c
    else if c.signal.zone_flip_pending || str_eq (opt_or c.zone_status "") "elevated"
    then return allowing c
    else return (suppressing "coherence_block") c

-- `_ALIASES`
abbrev pub regime_aliases : Dict String
regime_aliases =
    ("range", "ranging")
    ∷ ("ranging", "ranging")
    ∷ ("rangebound", "ranging")
    ∷ ("range-bound", "ranging")
    ∷ ("chop", "ranging")
    ∷ ("choppy", "ranging")
    ∷ ("trend", "trending")
    ∷ ("trending", "trending")
    ∷ ("volatile", "volatile")
    ∷ ("volatility", "volatile")
    ∷ ("expansion", "volatile")
    ∷ []

-- `normalise_regime`
unfoldable pub normalise_regime : Option String → String
normalise_regime none = "unknown"
normalise_regime (some value) =
    let key = lower (strip value) in
    opt_or (lookup key regime_aliases) (if str_eq key "" then "unknown" else key)

-- `normalise_regime(value) in DIRECTIONAL`, for a value that is normal already.
abbrev pub directional : String → Bool
directional r = str_mem r ("trending" ∷ "volatile" ∷ [])

-- `is_directional`
unfoldable pub is_directional : Option String → Bool
unfolding normalise_regime
is_directional value = directional (normalise_regime value)

abbrev pub own_regime : GateContext → Option String
own_regime c = elim c.signal.tf_regime [ some r ↦ some r | none ↦ c.signal.regime ]

abbrev pub timeframe_allowed : GateContext → Bool
timeframe_allowed c =
    str_mem (lower (strip (opt_or c.signal.timeframe "1h")))
      (map lower (opt_or c.policy.ranging_allowed_timeframes ("1h" ∷ "15m" ∷ [])))

abbrev pub weak_block : GateContext → Bool
weak_block c = str_mem (lower (strip (opt_or c.signal.block_confidence "high"))) (
    map lower
      (opt_or c.policy.ranging_weak_block_confidences ("low" ∷ "none" ∷ "flat" ∷ "med" ∷ [])))

-- The returns of `RegimeContextGate.evaluate`, on its four tests.
unfoldable pub regime_decision : (ranging allowed own weak : Bool) → Decision
regime_decision ranging allowed own weak =
    if not ranging
    then allowing
    else if allowed
    then allowing
    else if own
    then allowing
    else if not weak
    then allowing
    else route_fresh

-- `RegimeContextGate.evaluate`
unfoldable pub evaluate_regime_context : GateContext → Evaluation
unfolding is_directional regime_decision
evaluate_regime_context c =
    let tf_regime = normalise_regime (own_regime c) in
    return
      (regime_decision (str_eq (normalise_regime c.signal.regime) "ranging") (timeframe_allowed c)
        (is_directional (some tf_regime)) (weak_block c))
      (record c { tf_regime = some tf_regime })

-- The state of `EntryCooldownGate`: the last fill, in milliseconds and 0 if there was none.
pub record Cooldown : Type 0 where
  pub last_fill : ℕ
  pub last_price : ℤ
  pub last_direction : String

-- `record_fill`, at the reading of the clock.
unfoldable pub record_fill : ℕ → ℤ → String → Cooldown → Cooldown
record_fill now price direction s = record {
  last_fill = now;
  last_price = price;
  last_direction = upper direction;
}

abbrev pub window_ms : GateContext → ℕ
window_ms c = opt_or c.policy.entry_cooldown_seconds 900 * 1000

abbrev pub distance_limit : GateContext → ℤ
distance_limit c = opt_or c.policy.entry_cooldown_distance_pts (pos 40000)

-- `EntryCooldownGate.evaluate`. The window has passed when the clock is that far beyond the fill.
unfoldable pub evaluate_cooldown : Cooldown → GateContext → Evaluation
evaluate_cooldown s c =
    if s.last_fill == 0
    then return allowing c
    else if leb (s.last_fill + window_ms c) c.adapters.clock
    then return allowing c
    else need c.direction c λ direction.
      if not (str_eq direction s.last_direction)
      then return allowing c
      else need c.execution_price c λ price.
        if ltb_ℤ (distance_limit c) (abs (price -ℤ s.last_price))
        then return allowing c
        else return (suppressing "entry_cooldown") c

unfoldable pub cooldown_gate : Cooldown → Gate GateContext
unfolding evaluate_cooldown
cooldown_gate s = record {
  name = "entry_cooldown";
  runs_when_routed = false;
  expensive = false;
  advises = false;
  evaluate = evaluate_cooldown s;
}

unfoldable pub zone_gate : Gate GateContext
unfolding evaluate_zone
zone_gate = record {
  name = "zone";
  runs_when_routed = true;
  expensive = false;
  advises = false;
  evaluate = evaluate_zone;
}

unfoldable pub flip_confirm_gate : Gate GateContext
unfolding evaluate_flip_confirm
flip_confirm_gate = record {
  name = "flip_confirm";
  runs_when_routed = true;
  expensive = false;
  advises = false;
  evaluate = evaluate_flip_confirm;
}

unfoldable pub signal_coherence_gate : Gate GateContext
unfolding evaluate_signal_coherence
signal_coherence_gate = record {
  name = "signal_coherence";
  runs_when_routed = true;
  expensive = false;
  advises = false;
  evaluate = evaluate_signal_coherence;
}

unfoldable pub regime_gate : Gate GateContext
unfolding evaluate_regime_context
regime_gate = record {
  name = "regime_context";
  runs_when_routed = true;
  expensive = false;
  advises = false;
  evaluate = evaluate_regime_context;
}
