-- ===== src/Gates/Stack/Kept.antt =====
-- zcastor/gates/: what the gates before the account's leave alone.
use zcastor_agent.Base.{ℕ, String, ◌≡◌, arith, none, some, Option}
use zcastor_agent.Base.Int.{ℤ}
use zcastor_agent.Gates.Context.{RawTick, Policy, Adapters, GateContext}
use zcastor_agent.Gates.Payload.{
  direction_gate, evaluate_direction, direction_from, confidence_from, rank, minimum_confidence,
  raw_confidence, confidence_gate, evaluate_confidence,
}
use zcastor_agent.Gates.Feed.{
  FeedMemory, feed_gate, evaluate_feed, feed_from, judge_prices, price_from,
}
use zcastor_agent.Gates.Cost.{spread_hard_gate, evaluate_spread_hard}
use zcastor_agent.Gates.Pipeline.Kept.{AllKeep}
use zcastor_agent.Gates.Stack.{input_gates}

-- The context has these adapters and this policy.
abbrev pub RunsIn : Adapters → Policy → GateContext → Type 0
RunsIn a p c = (c.adapters ≡ a) × (c.policy ≡ p)

module _ (a : Adapters) (p : Policy) where
  price_from-RunsIn :
      (mid ask bid : ℤ) (t : ℕ) (c : GateContext)
      → RunsIn a p c
      → RunsIn a p (price_from mid ask bid t c).1
  unfolding price_from
  price_from-RunsIn mid ask bid t c h = ground arith

  judge_prices-RunsIn :
      (t : RawTick) (c : GateContext) → RunsIn a p c → RunsIn a p (judge_prices t c).1
  unfolding judge_prices
  judge_prices-RunsIn t c h = grind (arith, price_from-RunsIn)

  feed_from-RunsIn :
      (t : Option RawTick) (m : FeedMemory) (c : GateContext)
      → RunsIn a p c
      → RunsIn a p (feed_from t m c).0.1
  unfolding feed_from
  feed_from-RunsIn none m c h = h
  feed_from-RunsIn (some t) m c h = ground (arith, judge_prices-RunsIn t c h)

  direction_from-RunsIn :
      (d : Option String) (c : GateContext) → RunsIn a p c → RunsIn a p (direction_from d c).1
  unfolding direction_from
  direction_from-RunsIn d c h = ground arith

  confidence_from-RunsIn :
      (floor got : Option ℕ) (raw : String) (c : GateContext)
      → RunsIn a p c
      → RunsIn a p (confidence_from floor got raw c).1
  unfolding confidence_from
  confidence_from-RunsIn floor got raw c h = ground arith

  -- The gates before the account's leave the adapters and the policy as they are.
  pub input_gates-AllKeep : (m : FeedMemory) → AllKeep (RunsIn a p) (input_gates m)
  unfolding input_gates direction_gate evaluate_direction confidence_gate evaluate_confidence
      feed_gate evaluate_feed spread_hard_gate evaluate_spread_hard
  input_gates-AllKeep m = (
    λ c h. direction_from-RunsIn c.signal.direction c h,
    (
      λ c h.
          confidence_from-RunsIn (rank (minimum_confidence c)) (rank (raw_confidence c))
            (raw_confidence c) c h,
      (λ c h. feed_from-RunsIn c.adapters.tick m c h, (λ c h. ground arith, tt)),
    ),
  )
