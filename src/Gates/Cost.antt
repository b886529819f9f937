-- ===== src/Gates/Cost.antt =====
-- zcastor/gates/spread.py, range.py and deadman.py: what a trade costs, the room it has, and the
-- account that pays for it.
use zcastor_agent.Base.{str_eq, true, false, Option, none, some, if◌then◌else◌, opt_or}
use zcastor_agent.Base.Int.{ℤ, pos, ◌-ℤ◌, ltb_ℤ, leb_ℤ, neg}
use zcastor_agent.Gates.Verdict.{allowing, suppressing}
use zcastor_agent.Gates.Pipeline.{Gate}
use zcastor_agent.Gates.Context.{
  Fraction, ratio_ltb, ratio_leb, Raw, missing, blank, unreadable, number, GateContext, Evaluation,
  return, need,
}

-- `SpreadHardGate.evaluate`. The default is 60 points, in hundredths.
unfoldable pub evaluate_spread_hard : GateContext → Evaluation
evaluate_spread_hard c = need c.spread_pts c λ spread.
    if ltb_ℤ (opt_or c.policy.spread_hard_block_pts (pos 6000)) spread
    then return (suppressing "spread_hard_limit") c
    else return allowing c

-- `cost_pts`, or else `need("spread_pts")`.
abbrev pub cost_or_spread : GateContext → (ℤ → Evaluation) → Evaluation
cost_or_spread c k = elim c.cost_pts [ some cost ↦ k cost | none ↦ need c.spread_pts c k ]

-- `SpreadViabilityGate.evaluate`. The ratio is kept as the pair of cost and target.
unfoldable pub evaluate_spread_viability : GateContext → Evaluation
evaluate_spread_viability c = cost_or_spread c λ cost. need c.tp_pts c λ tp.
    if leb_ℤ tp (pos 0)
    then return (suppressing "target_zero") c
    else let c' = record c { spread_ratio = some (cost, tp) } in
      if ratio_leb cost tp
        (opt_or c.policy.spread_target_ratio_max (record { num = 30; den = 100 }))
      then return allowing c'
      else return (suppressing "cost_too_high_for_target") c'

unfoldable pub spread_hard_gate : Gate GateContext
unfolding evaluate_spread_hard
spread_hard_gate = record {
  name = "spread_hard";
  runs_when_routed = true;
  expensive = false;
  advises = false;
  evaluate = evaluate_spread_hard;
}

unfoldable pub spread_viability_gate : Gate GateContext
unfolding evaluate_spread_viability
spread_viability_gate = record {
  name = "spread_viability";
  runs_when_routed = false;
  expensive = false;
  advises = false;
  evaluate = evaluate_spread_viability;
}

-- `RangeAdequacyGate.evaluate`, on the level's distance in the payload.
unfoldable pub range_from : Raw → ℤ → GateContext → Evaluation
range_from missing sl c = return allowing c
range_from blank sl c = return allowing c
range_from unreadable sl c = return allowing c
range_from (number available) sl c =
    if leb_ℤ available (pos 0)
    then return allowing c
    else let c' = record c { available_pts = some available } in
      if ratio_ltb available sl
        (opt_or c.policy.range_adequacy_multiple (record { num = 1; den = 1 }))
      then return (suppressing "range_below_sl") c'
      else return allowing c'

unfoldable pub evaluate_range : GateContext → Evaluation
unfolding range_from
evaluate_range c = need c.direction c λ direction. need c.sl_pts c λ sl.
    range_from
      (if str_eq direction "UP"
        then c.signal.nearest_resistance_pts
        else c.signal.nearest_support_pts)
      sl c

-- `RiskRewardGate.evaluate`: a stop that is not positive counts as a ratio of 0.
unfoldable pub evaluate_risk_reward : GateContext → Evaluation
evaluate_risk_reward c = need c.tp_pts c λ tp. need c.sl_pts c λ sl.
    let minimum = opt_or c.policy.min_risk_reward (record { num = 1; den = 1 }) in
    let short =
      if ltb_ℤ (pos 0) sl then ratio_ltb tp sl minimum else ratio_ltb (pos 0) (pos 1) minimum in
    if short then return (suppressing "insufficient_rr") c else return allowing c

unfoldable pub range_adequacy_gate : Gate GateContext
unfolding evaluate_range
range_adequacy_gate = record {
  name = "range_adequacy";
  runs_when_routed = false;
  expensive = false;
  advises = false;
  evaluate = evaluate_range;
}

unfoldable pub risk_reward_gate : Gate GateContext
unfolding evaluate_risk_reward
risk_reward_gate = record {
  name = "risk_reward";
  runs_when_routed = false;
  expensive = false;
  advises = false;
  evaluate = evaluate_risk_reward;
}

abbrev pub deadman_floor : GateContext → Fraction
deadman_floor c = opt_or c.policy.deadman_floor_frac (record { num = 75; den = 100 })

-- `DeadmanGate.evaluate`, on the balance that the market answers. The loss of the day over the
-- balance of its start is at the floor or above it where the floor is at most that ratio.
unfoldable pub deadman_from : Option ℤ → GateContext → Evaluation
deadman_from none c = return (suppressing "balance_unknown") c
deadman_from (some balance) c =
    let start = balance -ℤ c.adapters.today_pnl in
    if leb_ℤ balance (pos 0)
    then return (suppressing "balance_unknown") c
    else if leb_ℤ start (pos 0)
    then return (suppressing "start_of_day_invalid") c
    else if ratio_ltb (neg c.adapters.today_pnl) start (deadman_floor c)
    then return allowing (record c { balance = some balance; start_of_day = some start })
    else return (suppressing "deadman_halt") c

unfoldable pub evaluate_deadman : GateContext → Evaluation
unfolding deadman_from
evaluate_deadman c = deadman_from c.adapters.balance c

unfoldable pub deadman_gate : Gate GateContext
unfolding evaluate_deadman
deadman_gate = record {
  name = "deadman";
  runs_when_routed = true;
  expensive = true;
  advises = false;
  evaluate = evaluate_deadman;
}
