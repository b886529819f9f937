-- ===== src/Gates/Stack/Valid.antt =====
-- zcastor/app/server.py: `_gates` as the pipeline's constructor checks it.
use zcastor_agent.Base.{String-discrete, Bool, some, [], ◌≡◌, refl}
use zcastor_agent.Gates.Pipeline.{validate}
use zcastor_agent.Gates.Feed.{FeedMemory, feed_gate, targets_stage}
use zcastor_agent.Gates.Payload.{direction_gate, confidence_gate, session_gate}
use zcastor_agent.Gates.Cost.{
  spread_hard_gate, spread_viability_gate, range_adequacy_gate, risk_reward_gate, deadman_gate,
}
use zcastor_agent.Gates.Exposure.{
  stack_gate, viability_gate, ledger_gate, session_exhaustion_gate, london_gate,
  model_coherence_gate,
}
use zcastor_agent.Gates.Structure.{
  Cooldown, cooldown_gate, zone_gate, flip_confirm_gate, signal_coherence_gate, regime_gate,
}
use zcastor_agent.Gates.Stack.{gates, input_gates, later_gates}

-- The pipeline takes the server's stack: no two gates have one name, and none is unnamed.
pub validate-gates :
    (m : FeedMemory) (s : Cooldown) (enforce : Bool)
    → validate [] (gates m s enforce) ≡ some (gates m s enforce)
unfolding gates input_gates later_gates validate String-discrete direction_gate confidence_gate
    feed_gate spread_hard_gate deadman_gate stack_gate cooldown_gate zone_gate flip_confirm_gate
    signal_coherence_gate model_coherence_gate session_gate regime_gate london_gate targets_stage
    spread_viability_gate range_adequacy_gate risk_reward_gate session_exhaustion_gate ledger_gate
    viability_gate
validate-gates m s enforce = refl
