-- ===== src/Gates/Stack.antt =====
-- zcastor/app/server.py: `_gates`, the stack that the server wires, over the memory of the feed and
-- the cooldown.
pub mod Kept
pub mod Halted
pub mod Valid
use zcastor_agent.Base.{Bool, List, [], ◌∷◌, ◌++◌}
use zcastor_agent.Gates.Pipeline.{Gate}
use zcastor_agent.Gates.Context.{GateContext}
use zcastor_agent.Gates.Payload.{direction_gate, confidence_gate, session_gate}
use zcastor_agent.Gates.Feed.{FeedMemory, feed_gate, targets_stage}
use zcastor_agent.Gates.Cost.{
  spread_hard_gate, spread_viability_gate, range_adequacy_gate, risk_reward_gate, deadman_gate,
}
use zcastor_agent.Gates.Exposure.{
  stack_gate, viability_gate, ledger_gate, session_exhaustion_gate, london_gate,
  model_coherence_gate,
}
use zcastor_agent.Gates.Structure.{
  Cooldown, cooldown_gate, zone_gate, flip_confirm_gate, signal_coherence_gate, regime_gate,
}

-- The gates before the one that reads the account, and those after it.
unfoldable pub input_gates : FeedMemory → List (Gate GateContext)
unfolding direction_gate confidence_gate feed_gate spread_hard_gate
input_gates m = direction_gate ∷ confidence_gate ∷ feed_gate m ∷ spread_hard_gate ∷ []

unfoldable pub later_gates : Cooldown → Bool → List (Gate GateContext)
unfolding cooldown_gate zone_gate flip_confirm_gate signal_coherence_gate model_coherence_gate
    session_gate regime_gate london_gate targets_stage spread_viability_gate range_adequacy_gate
    risk_reward_gate session_exhaustion_gate ledger_gate viability_gate
later_gates s enforce =
    cooldown_gate s
    ∷ zone_gate
    ∷ flip_confirm_gate
    ∷ signal_coherence_gate
    ∷ model_coherence_gate
    ∷ session_gate
    ∷ regime_gate
    ∷ london_gate
    ∷ targets_stage
    ∷ spread_viability_gate
    ∷ range_adequacy_gate
    ∷ risk_reward_gate
    ∷ session_exhaustion_gate
    ∷ ledger_gate enforce
    ∷ viability_gate
    ∷ []

-- `_gates`
unfoldable pub gates : FeedMemory → Cooldown → Bool → List (Gate GateContext)
unfolding deadman_gate stack_gate input_gates later_gates
gates m s enforce = input_gates m ++ deadman_gate ∷ stack_gate ∷ later_gates s enforce
