-- ===== src/Gates/Feed.antt =====
-- zcastor/gates/feed.py and targets.py: the tick that every later gate reads its prices from, the
-- memory that tells a frozen feed, and the targets.
pub mod Frozen
use zcastor_agent.Base.{
  ℕ, ◌+◌, ◌-◌, ◌*◌, ◌/◌, ◌%◌, String, str_eq, Bool, true, false, ◌&&◌, ◌||◌, Option, none, some,
  ◌==◌, ltb, if◌then◌else◌, opt_or,
}
use zcastor_agent.Base.Int.{ℤ, pos, pos_part, neg_part, neg, ◌+ℤ◌, ◌-ℤ◌, ◌*ℤ◌, leb_ℤ, ltb_ℤ, abs}
use zcastor_agent.Gates.Verdict.{allowing, rejecting}
use zcastor_agent.Gates.Pipeline.{Gate}
use zcastor_agent.Gates.Context.{RawTick, Fraction, GateContext, Evaluation, return, need}

-- The state of `FeedGate`: the time of the last tick, and when it was first seen, in milliseconds.
pub record FeedMemory : Type 0 where
  pub last_tick_time : Option ℕ
  pub first_seen_at : Option ℕ

-- `round` of n / d, half to even.
abbrev pub round_ratio : ℕ → ℕ → ℕ
round_ratio n d =
    let q = n / d in
    let r = n % d in if ltb (2 * r) d then q else if ltb d (2 * r) then q + 1 else q + q % 2

abbrev pub round_signed : ℤ → ℕ → ℤ
round_signed a d =
    if ltb_ℤ a (pos 0)
    then neg (pos (round_ratio (neg_part a) d))
    else pos (round_ratio (pos_part a) d)

abbrev pub is_zero : ℤ → Bool
is_zero a = leb_ℤ a (pos 0) && leb_ℤ (pos 0) a

-- `a or b`, of a number.
abbrev pub or_price : ℤ → ℤ → ℤ
or_price a b = if is_zero a then b else a

abbrev pub same_time : Option ℕ → ℕ → Bool
same_time none t = false
same_time (some u) t = t == u

-- `self._first_seen_at or now`
abbrev pub seen_or : Option ℕ → ℕ → ℕ
seen_or none now = now
seen_or (some t) now = if t == 0 then now else t

abbrev pub stale_limit : GateContext → ℕ
stale_limit c = opt_or c.policy.stale_tick_seconds 120 * 1000

-- Has the tick stood still for longer than the limit?
abbrev pub frozen : FeedMemory → RawTick → GateContext → Bool
frozen m t c = ltb (seen_or m.first_seen_at c.adapters.clock + stale_limit c) c.adapters.clock

abbrev pub commission_rate : GateContext → Fraction
commission_rate c = opt_or c.policy.commission_rate (record { num = 0; den = 1 })

-- `evaluate` from the prices of the tick on: the commission of both sides, the cost, the prices.
unfoldable pub price_from : (mid ask bid : ℤ) → ℕ → GateContext → Evaluation
price_from mid ask bid tick_time c = need c.is_buy c λ buys.
    let rate = commission_rate c in
    let fee = mid *ℤ pos (rate.num * 2) in
    return allowing (record c {
      commission_pts = some (round_signed fee rate.den);
      cost_pts = some (round_signed ((ask -ℤ bid) *ℤ pos rate.den +ℤ fee) rate.den);
      tick_time = some tick_time;
      ask = some ask;
      bid = some bid;
      mid = some mid;
      execution_price = some (if buys then ask else bid);
      spread_pts = some (round_signed (ask -ℤ bid) 100 *ℤ pos 100);
    })

unfoldable pub judge_prices : RawTick → GateContext → Evaluation
unfolding price_from
judge_prices t c =
    let ask = or_price t.ask t.price in
    let bid = or_price t.bid t.price in
    if is_zero t.price
    then return (rejecting "zero_price") c
    else if leb_ℤ ask (pos 0) || leb_ℤ bid (pos 0) || ltb_ℤ ask bid
    then return (rejecting "tick_incoherent") c
    else price_from t.price ask bid t.time c

-- The memory after a tick that is not refused as stale.
abbrev pub remember : RawTick → ℕ → FeedMemory
remember t now = record { last_tick_time = some t.time; first_seen_at = some now }

-- `FeedGate.evaluate` on the answer of `get_tick`, with the memory that is left.
unfoldable pub feed_from : Option RawTick → FeedMemory → GateContext → Evaluation × FeedMemory
unfolding judge_prices
feed_from none m c = (return (rejecting "tick_unavailable") c, m)
feed_from (some t) m c =
    if t.time == 0
    then (judge_prices t c, m)
    else if same_time m.last_tick_time t.time
    then if frozen m t c then (return (rejecting "stale_feed") c, m) else (judge_prices t c, m)
    else (judge_prices t c, remember t c.adapters.clock)

unfoldable pub evaluate_feed : FeedMemory → GateContext → Evaluation × FeedMemory
unfolding feed_from
evaluate_feed m c = feed_from c.adapters.tick m c

unfoldable pub feed_gate : FeedMemory → Gate GateContext
unfolding evaluate_feed
feed_gate m = record {
  name = "feed";
  runs_when_routed = true;
  expensive = false;
  advises = false;
  evaluate = λ c. (evaluate_feed m c).0;
}

-- The phase that `TargetStage` hands on: the server's, where there is one.
abbrev pub phase_of : GateContext → String
phase_of c =
    let phase = opt_or c.zone_phase "" in
    if str_eq phase "" then opt_or c.signal.zone_phase "" else phase

-- `TargetStage.evaluate` on the two prices.
unfoldable pub targets_from : Option ℤ → Option ℤ → ℤ → GateContext → Evaluation
targets_from (some tp) (some sl) price c =
    let sl_pts = abs (price -ℤ sl) in
    if leb_ℤ sl_pts (pos 0)
    then return (rejecting "stop_distance_zero") c
    else return allowing (record c {
      tp = some tp;
      sl = some sl;
      tp_pts = some (abs (tp -ℤ price));
      sl_pts = some sl_pts;
    })
targets_from (some tp) none price c = return (rejecting "targets_uncomputable") c
targets_from none sl price c = return (rejecting "targets_uncomputable") c

unfoldable pub evaluate_targets : GateContext → Evaluation
unfolding targets_from
evaluate_targets c = need c.execution_price c λ price.
    targets_from (c.adapters.compute_tp (phase_of c) price)
      (c.adapters.compute_sl (phase_of c) price) price c

unfoldable pub targets_stage : Gate GateContext
unfolding evaluate_targets
targets_stage = record {
  name = "targets";
  runs_when_routed = true;
  expensive = false;
  advises = false;
  evaluate = evaluate_targets;
}
