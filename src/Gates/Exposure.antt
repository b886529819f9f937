-- ===== src/Gates/Exposure.antt =====
-- zcastor/gates/stack.py, viability.py, ledger.py, exhaustion.py, london.py and the advisory gate of
-- coherence.py: what is at stake, and what has been measured.
use zcastor_agent.Base.{
  ◌*◌, String, str_eq, str_mem, Bool, true, false, not, ◌&&◌, Option, none, some, [], ◌∷◌, leb, ltb,
  if◌then◌else◌, opt_or,
}
use zcastor_agent.Base.Dict.{lookup}
use zcastor_agent.Base.Int.{ℤ, pos, neg, ◌+ℤ◌, ◌-ℤ◌, ◌*ℤ◌, leb_ℤ, ltb_ℤ}
use zcastor_agent.Base.Text.{lower}
use zcastor_agent.Gates.Verdict.{allowing, suppressing}
use zcastor_agent.Gates.Pipeline.{Gate}
use zcastor_agent.Gates.Context.{ratio_ltb, GateContext, Evaluation, return, need}
use zcastor_agent.Gates.Feed.{is_zero}
use zcastor_agent.Gates.Structure.{own_regime, normalise_regime, is_directional}

-- `StackLimitGate.evaluate`
unfoldable pub evaluate_stack : GateContext → Evaluation
evaluate_stack c =
    let count = c.adapters.live_positions in
    if leb (opt_or c.policy.max_position_stack 5) count
    then return (suppressing "max_stack") c
    else return allowing (record c { open_positions = some count })

-- `float(ctx.get("cost_pts") or ctx.get("spread_pts") or 0)`
abbrev pub cost_of : GateContext → ℤ
cost_of c =
    let cost = opt_or c.cost_pts (pos 0) in
    if is_zero cost then opt_or c.spread_pts (pos 0) else cost

-- The money at risk, in units of the denominator of the volume.
abbrev pub risk_amount : GateContext → ℤ → ℤ
risk_amount c sl = (sl +ℤ cost_of c) *ℤ pos c.adapters.volume.num

-- Is the risk a larger part of the balance than the cap?
abbrev pub above_risk_cap : GateContext → ℤ → ℤ → Bool
above_risk_cap c balance risk =
    let cap = opt_or c.policy.max_trade_risk_frac (record { num = 30; den = 100 }) in
    ltb_ℤ (balance *ℤ pos (c.adapters.volume.den * cap.num)) (risk *ℤ pos cap.den)

-- The margin that is needed: the broker's figure, else the risk.
abbrev pub needed_margin : GateContext → ℤ → ℤ → ℤ
needed_margin c required risk =
    if ltb_ℤ (pos 0) required then required *ℤ pos c.adapters.volume.den else risk

abbrev pub short_of_margin : GateContext → ℤ → ℤ → Bool
short_of_margin c free needed =
    let buffer = opt_or c.policy.margin_buffer_frac (record { num = 95; den = 100 }) in
    ltb_ℤ (free *ℤ pos (c.adapters.volume.den * buffer.num)) (needed *ℤ pos buffer.den)

-- `not x or x <= 0`
abbrev pub unreadable_amount : Option ℤ → Bool
unreadable_amount none = true
unreadable_amount (some x) = leb_ℤ x (pos 0)

-- `ViabilityGate.evaluate` on the account.
unfoldable pub viability_from : Option ℤ → Option ℤ → ℤ → ℤ → GateContext → Evaluation
viability_from balance free required sl c =
    let risk = risk_amount c sl in
    if unreadable_amount balance
    then return (suppressing "balance_unavailable") c
    else if unreadable_amount free
    then return (suppressing "free_margin_unavailable") c
    else if above_risk_cap c (opt_or balance (pos 0)) risk
    then return (suppressing "risk_above_cap") c
    else if short_of_margin c (opt_or free (pos 0)) (needed_margin c required risk)
    then return (suppressing "insufficient_margin") c
    else return allowing (record c { dollar_risk = some risk })

unfoldable pub evaluate_viability : GateContext → Evaluation
unfolding viability_from
evaluate_viability c = need c.sl_pts c λ sl. need c.direction c λ direction.
    need c.execution_price c λ price.
      viability_from c.adapters.balance c.adapters.free_margin
        (c.adapters.margin_for direction c.adapters.volume price) sl c

abbrev pub route_of : GateContext → String
route_of c = if str_eq (opt_or c.route_kind "") "" then "market" else "watcher"

-- `EdgeLedgerGate.evaluate`
unfoldable pub evaluate_ledger : Bool → GateContext → Evaluation
evaluate_ledger enforce c =
    let action = lower (
      c.adapters.ledger_action (opt_or c.signal.timeframe "") (opt_or c.signal.session "")
        (route_of c)) in
    if enforce && str_eq action "shadow"
    then return (suppressing "ledger_shadow") c
    else return allowing c

-- `SessionExhaustionGate.evaluate` once the range and the open are known.
unfoldable pub exhaustion_from : ℤ → ℤ → GateContext → Evaluation
exhaustion_from typical opened c =
    if leb_ℤ typical (pos 0)
    then return allowing c
    else if leb_ℤ opened (pos 0)
    then return allowing c
    else need c.execution_price c λ price. need c.direction c λ direction.
      let move = price -ℤ opened in
      let along =
        if str_mem (lower direction) ("up" ∷ "buy" ∷ "long" ∷ []) then move else neg move in
      if ratio_ltb along typical
        (opt_or c.policy.session_exhaustion_frac (record { num = 60; den = 100 }))
      then return allowing c
      else return (suppressing "session_exhausted") c

unfoldable pub evaluate_session_exhaustion : GateContext → Evaluation
unfolding exhaustion_from
evaluate_session_exhaustion c =
    let session = opt_or c.signal.session "" in
    exhaustion_from (opt_or (lookup session c.policy.session_typical_range_pts) (pos 0))
      (c.adapters.session_open_price session) c

abbrev pub in_london : GateContext → Bool
in_london c =
    let (from, to) = opt_or c.policy.london_window_utc (5, 12) in
    leb from c.adapters.utc_hour && ltb c.adapters.utc_hour to

-- `intraday_down`: the move since the open is above both the floor and the multiple of the spread.
abbrev pub intraday_down : GateContext → (opened price spread : ℤ) → Bool
intraday_down c opened price spread =
    let multiple = opt_or c.policy.london_spread_multiple (record { num = 2; den = 1 }) in
    let move = opened -ℤ price in
    ltb_ℤ (pos 0) opened
    && (ltb_ℤ (spread *ℤ pos multiple.num) (move *ℤ pos multiple.den)
        && ltb_ℤ (opt_or c.policy.london_min_down_pts (pos 5000)) move)

-- `LondonBiasGate.evaluate`
unfoldable pub evaluate_london : GateContext → Evaluation
unfolding is_directional normalise_regime
evaluate_london c = need c.direction c λ direction.
    if not (str_eq direction "DOWN")
    then return allowing c
    else if not (in_london c)
    then return allowing c
    else need c.execution_price c λ price. need c.spread_pts c λ spread.
      let opened = c.adapters.session_open_price (opt_or c.signal.session "") in
      if intraday_down c opened price spread
        && is_directional (some (normalise_regime (own_regime c)))
      then return allowing c
      else return (suppressing "london_sell_bias") c

-- `ModelCoherenceGate.evaluate`
unfoldable pub evaluate_model_coherence : GateContext → Evaluation
evaluate_model_coherence c = return allowing c

unfoldable pub stack_gate : Gate GateContext
unfolding evaluate_stack
stack_gate = record {
  name = "stack_limit";
  runs_when_routed = true;
  expensive = true;
  advises = false;
  evaluate = evaluate_stack;
}

unfoldable pub viability_gate : Gate GateContext
unfolding evaluate_viability
viability_gate = record {
  name = "viability";
  runs_when_routed = false;
  expensive = true;
  advises = false;
  evaluate = evaluate_viability;
}

-- `EdgeLedgerGate.__init__`: what is not enforced only advises.
unfoldable pub ledger_gate : Bool → Gate GateContext
unfolding evaluate_ledger
ledger_gate enforce = record {
  name = "edge_ledger";
  runs_when_routed = true;
  expensive = false;
  advises = not enforce;
  evaluate = evaluate_ledger enforce;
}

unfoldable pub session_exhaustion_gate : Gate GateContext
unfolding evaluate_session_exhaustion
session_exhaustion_gate = record {
  name = "session_exhaustion";
  runs_when_routed = false;
  expensive = true;
  advises = false;
  evaluate = evaluate_session_exhaustion;
}

unfoldable pub london_gate : Gate GateContext
unfolding evaluate_london
london_gate = record {
  name = "london_bias";
  runs_when_routed = false;
  expensive = false;
  advises = false;
  evaluate = evaluate_london;
}

unfoldable pub model_coherence_gate : Gate GateContext
unfolding evaluate_model_coherence
model_coherence_gate = record {
  name = "model_coherence";
  runs_when_routed = true;
  expensive = false;
  advises = true;
  evaluate = evaluate_model_coherence;
}
