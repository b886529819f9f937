-- ===== src/Gates/Feed/Frozen.antt =====
-- zcastor/gates/feed.py: how long a tick that does not move is taken.
use zcastor_agent.Base.{
  ℕ, ◌+◌, str_eq, String-discrete, Bool, true, false, Option, none, some, List, [], ◌∷◌, ◌≡◌, refl,
  ap, ◌∙◌, arith, ltb, ◌==◌, if◌then◌else◌,
}
use zcastor_agent.Gates.Pipeline.{Outcome, decided, raised, not_a_decision}
use zcastor_agent.Gates.Context.{RawTick, GateContext, Evaluation, return, need}
use zcastor_agent.Gates.Verdict.{rejecting}
use zcastor_agent.Base.Int.{ℤ}
use zcastor_agent.Gates.Feed.{
  FeedMemory, feed_from, evaluate_feed, judge_prices, price_from, stale_limit, same_time, or_price,
}

-- The gate refused the tick as frozen.
abbrev pub is_stale : Outcome → Bool
is_stale (decided d) = str_eq d.reason "stale_feed"
is_stale raised = false
is_stale not_a_decision = false

-- The memory of the gate after evaluations on these contexts.
abbrev pub observe : List GateContext → FeedMemory → FeedMemory
observe [] m = m
observe (c ∷ cs) m = observe cs (evaluate_feed m c).1

-- The market answers with a tick of this time.
abbrev pub time_of : Option RawTick → Option ℕ
time_of none = none
time_of (some k) = some k.time

abbrev pub TicksAt : ℕ → GateContext → Type 0
TicksAt t c = time_of c.adapters.tick ≡ some t

abbrev pub AllTickAt : ℕ → List GateContext → Type 0
AllTickAt t [] = Unit
AllTickAt t (c ∷ cs) = TicksAt t c × AllTickAt t cs

need-is_stale :
    (o : Option Bool) (c : GateContext) (k : Bool → Evaluation)
    → ((b : Bool) → is_stale (k b).0 ≡ false)
    → is_stale (need o c k).0 ≡ false
need-is_stale none c k h = refl
need-is_stale (some b) c k h = h b

price_from-is_stale :
    (mid ask bid : ℤ) (t : ℕ) (c : GateContext) → is_stale (price_from mid ask bid t c).0 ≡ false
unfolding price_from String-discrete
price_from-is_stale mid ask bid t c = need-is_stale c.is_buy c _ λ b. refl

refusals-is_stale :
    (zero incoherent : Bool) (c : GateContext) (e : Evaluation)
    → is_stale e.0 ≡ false
    → is_stale
        (if zero
          then return (rejecting "zero_price") c
          else if incoherent
          then return (rejecting "tick_incoherent") c
          else e).0
      ≡ false
unfolding String-discrete
refusals-is_stale true i c e h = refl
refusals-is_stale false true c e h = refl
refusals-is_stale false false c e h = h

judge_prices-is_stale : (k : RawTick) (c : GateContext) → is_stale (judge_prices k c).0 ≡ false
unfolding judge_prices
judge_prices-is_stale k c =
    refusals-is_stale _ _ c _
      (price_from-is_stale k.price (or_price k.ask k.price) (or_price k.bid k.price) k.time c)

-- A tick that the memory knows leaves it as it is, refused or not.
feed_from-known :
    (k : Option RawTick) (t : ℕ) (m : FeedMemory) (c : GateContext)
    → time_of k ≡ some t
    → m.last_tick_time ≡ some t
    → (feed_from k m c).1 ≡ m
unfolding feed_from
feed_from-known k t m c h l = ground arith

observe-known :
    (cs : List GateContext) (t : ℕ) (m : FeedMemory)
    → AllTickAt t cs
    → m.last_tick_time ≡ some t
    → observe cs m ≡ m
unfolding evaluate_feed
observe-known [] t m h l = refl
observe-known (c ∷ cs) t m h l =
    ap (observe cs) (feed_from-known c.adapters.tick t m c h.0 l) ∙ observe-known cs t m h.1 l

-- A new tick is remembered with the moment at which it came.
feed_from-new :
    (k : Option RawTick) (t : ℕ) (m : FeedMemory) (c : GateContext)
    → time_of k ≡ some t
    → (t == 0) ≡ false
    → same_time m.last_tick_time t ≡ false
    → (feed_from k m c).1
      ≡ record { last_tick_time = some t; first_seen_at = some c.adapters.clock }
unfolding feed_from
feed_from-new k t m c h z n = ground arith

-- A tick that the memory knows is refused as frozen once the limit has passed since it came.
feed_from-is_stale :
    (k : Option RawTick) (t now : ℕ) (c : GateContext)
    → time_of k ≡ some t
    → (t == 0) ≡ false
    → (now == 0) ≡ false
    → is_stale (feed_from k (record { last_tick_time = some t; first_seen_at = some now }) c).0.0
      ≡ ltb (now + stale_limit c) c.adapters.clock
unfolding feed_from
feed_from-is_stale none t now c h z w = ground arith
feed_from-is_stale (some k) t now c h z w = ground (arith, judge_prices-is_stale k c)

-- A tick whose time does not change is refused as frozen exactly when more than the limit of the
-- policy has passed since it first came, however often the gate has looked at it in between.
pub frozen-is_stale :
    (t : ℕ) (m : FeedMemory) (first : GateContext) (cs : List GateContext) (c : GateContext)
    → (t == 0) ≡ false
    → (first.adapters.clock == 0) ≡ false
    → same_time m.last_tick_time t ≡ false
    → AllTickAt t (first ∷ cs)
    → TicksAt t c
    → is_stale (evaluate_feed (observe (first ∷ cs) m) c).0.0
      ≡ ltb (first.adapters.clock + stale_limit c) c.adapters.clock
unfolding evaluate_feed
frozen-is_stale t m first cs c z w n h k =
    rw
      (
        feed_from-new first.adapters.tick t m first h.0 z n,
        observe-known cs t
            (record { last_tick_time = some t; first_seen_at = some first.adapters.clock }) h.1
            refl,
      )
      (feed_from-is_stale c.adapters.tick t first.adapters.clock c k z w)
