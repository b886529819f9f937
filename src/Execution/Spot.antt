-- ===== src/Execution/Spot.antt =====
-- zcastor/execution/binance_orders.py: `BinanceOrderPlacer` on the exchange, which is a parameter.
-- Quantities are in hundred-millionths, prices and notionals in ten-thousandths of the quote asset;
-- the price that is answered is in hundredths.
pub mod Sent
use zcastor_agent.Base.{
  ℕ, zero, suc, ◌+◌, ◌*◌, ◌/◌, String, Bool, true, false, ◌||◌, ◌&&◌, not, Option,
}
use zcastor_agent.Base.{none, some, List, [], ◌∷◌, length, ltb, ◌==◌, str_eq, opt_or}
use zcastor_agent.Base.{if◌then◌else◌}
use zcastor_agent.Base.Text.{upper}
use zcastor_agent.Gates.Feed.{round_ratio}
use zcastor_agent.Market.Port.{Reply, raised, answered}

-- One filter of a symbol; a number is none where `float` refuses it.
pub data Filter : Type 0 where
  lot_size notional : Option ℕ → Filter
  other : Filter

pub record Fill : Type 0 where
  pub qty : Option ℕ
  pub price : Option ℕ

-- What is posted to /api/v3/order.
pub record Request : Type 0 where
  pub symbol : String
  pub side : String
  pub quantity : ℕ

pub record Accepted : Type 0 where
  pub fills : List Fill
  pub order_id : ℕ

-- The client. `raised` stands for a `BinanceError`, and of the symbol's rules also for a key that
-- is missing.
pub record Exchange (W : Type 0) : Type 0 where
  pub exchange_info : String → W → Reply (List Filter) × W
  pub order : Request → W → Reply Accepted × W
  pub my_trades : String → ℕ → W → Reply (List Fill) × W

pub record Placer : Type 0 where
  pub symbol : String
  pub volume : ℕ
  pub step : Option ℕ
  pub min_notional : ℕ

pub record Placed : Type 0 where
  pub ticket : ℕ
  pub side : String
  pub price : ℕ
  pub sl : ℕ
  pub tp : Option ℕ
  pub qty : ℕ

pub record Closed : Type 0 where
  pub ticket : ℕ
  pub close_price : ℕ
  pub close_order : ℕ

abbrev pub least_step : ℕ
least_step = 1000

-- `x or d`, of a number.
abbrev pub or_else : ℕ → ℕ → ℕ
or_else x d = if x == 0 then d else x

-- The loop over the filters.
abbrev pub filtered : List Filter → Placer → Placer
filtered [] p = p
filtered (lot_size v ∷ fs) p = filtered fs (record p { step = some (opt_or v least_step) })
filtered (notional v ∷ fs) p = filtered fs (record p { min_notional = opt_or v 0 })
filtered (other ∷ fs) p = filtered fs p

abbrev pub rules_from : Reply (List Filter) → Placer → Placer
rules_from (raised e) p = record p { step = some least_step; min_notional = 0 }
rules_from (answered fs) p =
    let p' = filtered fs p in record p' { step = some (or_else (opt_or p'.step 0) least_step) }

-- `int(qty / step) * step`
abbrev pub round_to_step : ℕ → ℕ → ℕ
round_to_step step qty = qty / step * step

abbrev pub step_of : Placer → ℕ
step_of p = or_else (opt_or p.step 0) least_step

-- The sums over the fills.
abbrev pub qty_of : List Fill → ℕ
qty_of [] = 0
qty_of (f ∷ fs) = opt_or f.qty 0 + qty_of fs

abbrev pub value_of : List Fill → ℕ
value_of [] = 0
value_of (f ∷ fs) = opt_or f.price 0 * opt_or f.qty 0 + value_of fs

-- `round(avg, 2)`, where no fill gives `other`.
abbrev pub average : List Fill → ℕ → ℕ → ℕ
average [] qty other_price = round_ratio other_price 100
average (f ∷ fs) qty other_price =
    round_ratio (value_of (f ∷ fs)) (or_else (qty_of (f ∷ fs)) qty * 100)

abbrev pub placed_from : Reply Accepted → String → ℕ → ℕ → ℕ → Option ℕ → Reply Placed
placed_from (raised e) side qty price sl tp = raised e
placed_from (answered a) side qty price sl tp = answered (record {
  ticket = a.order_id;
  side = side;
  price = average a.fills qty price;
  sl = sl;
  tp = tp;
  qty = or_else (qty_of a.fills) qty;
})

abbrev pub closed_from : Reply Accepted → ℕ → ℕ → Reply Closed
closed_from (raised e) ticket qty = raised e
closed_from (answered a) ticket qty =
    answered
      (record { ticket = ticket; close_price = average a.fills qty 0; close_order = a.order_id })

abbrev pub opposite : String → String
opposite side = if str_eq (upper side) "BUY" then "SELL" else "BUY"

abbrev pub below_minimum : Placer → ℕ → ℕ → Bool
below_minimum p qty price =
    not (p.min_notional == 0) && ltb (qty * price) (p.min_notional * 100000000)

module _ {W : Type 0} (c : Exchange W) where
  -- `_load_filters`
  abbrev pub load_known : Option ℕ → Placer → W → Placer × W
  load_known (some step) p w = (p, w)
  load_known none p w = let (r, w') = c.exchange_info p.symbol w in (rules_from r p, w')

  unfoldable pub load_filters : Placer → W → Placer × W
  load_filters p w = load_known p.step p w

  -- `_round_qty`
  unfoldable pub round_qty : ℕ → Placer → W → ℕ × Placer × W
  round_qty qty p w = let (p', w') = load_filters p w in (round_to_step (step_of p') qty, p', w')

  -- `market_order` from the rounded quantity on.
  abbrev pub order_rounded : String → ℕ → ℕ → Option ℕ → ℕ × Placer × W → Reply Placed × Placer × W
  order_rounded side price sl tp (qty, p, w) =
      let (r, w') = c.order (record { symbol = p.symbol; side = side; quantity = qty }) w in
      if qty == 0
      then (raised "quantity rounds to zero", p, w)
      else if below_minimum p qty price
      then (raised "notional below venue minimum", p, w)
      else (placed_from r side qty price sl tp, p, w')

  unfoldable pub market_order : String → ℕ → ℕ → Option ℕ → Placer → W → Reply Placed × Placer × W
  market_order word price sl tp p w =
      let side = upper word in
      if not (str_eq side "BUY" || str_eq side "SELL")
      then (raised "bad side", p, w)
      else order_rounded side price sl tp (round_qty p.volume p w)

  -- `close_position` from the rounded quantity of the original fills on.
  abbrev pub close_rounded : ℕ → String → ℕ × Placer × W → Reply Closed × Placer × W
  close_rounded ticket side (qty, p, w) =
      let (r, w') =
        c.order (record { symbol = p.symbol; side = opposite side; quantity = qty }) w in
      if qty == 0 then (raised "nothing to close", p, w) else (closed_from r ticket qty, p, w')

  abbrev pub close_fills : Reply (List Fill) → ℕ → String → Placer → W → Reply Closed × Placer × W
  close_fills (raised e) ticket side p w = (raised e, p, w)
  close_fills (answered fs) ticket side p w = close_rounded ticket side (round_qty (qty_of fs) p w)

  unfoldable pub close_position : ℕ → String → Placer → W → Reply Closed × Placer × W
  close_position ticket side p w =
      let (r, w') = c.my_trades p.symbol ticket w in close_fills r ticket side p w'
