-- ===== src/Market/Mt5.antt =====
-- zcastor/market/mt5.py: `MarketData` on the terminal, which is a parameter. Prices and money are in
-- hundredths; a number of the terminal is none where it is missing or cannot be read. The session's
-- opens are Market/Session.antt; the bridge (RpycMT5, connect) is left out.
pub mod Deals
pub mod Realised
pub mod Shown
use zcastor_agent.Base.{
  ℕ, zero, suc, ◌+◌, ◌*◌, String, Bool, true, false, ◌||◌, Option, none, some, List,
}
use zcastor_agent.Base.{[], ◌∷◌, map, length, keep_if, ltb, ◌==◌, str_eq, str_mem, opt_or}
use zcastor_agent.Base.{if◌then◌else◌}
use zcastor_agent.Base.Int.{ℤ, pos, ◌+ℤ◌, ◌-ℤ◌, ◌*ℤ◌, ltb_ℤ, leb_ℤ}
use zcastor_agent.Base.Text.{upper}
use zcastor_agent.Gates.Feed.{round_signed}
use zcastor_agent.Market.Mt5.Deals.{DealInfo, ClosedDeal, number_or, deals_from}
use zcastor_agent.Market.Port.{
  Reply, raised, answered, Tick, MarketState, Rate, shown_open, state_of, Cache, Venue, get_tick,
  get_account, get_open_positions,
}

pub record TickInfo : Type 0 where
  pub ask : Option ℤ
  pub bid : Option ℤ
  pub time : Option ℕ

pub record AccountInfo : Type 0 where
  pub balance : Option ℤ
  pub margin_free : Option ℤ
  pub equity : Option ℤ

pub record PositionInfo : Type 0 where
  pub ticket : Option ℕ
  pub kind : Option ℕ
  pub volume : Option ℕ
  pub price_open : Option ℤ
  pub sl : Option ℤ
  pub tp : Option ℤ
  pub profit : Option ℤ

-- One minute's bar.
pub record RateInfo : Type 0 where
  pub time : Option ℕ
  pub open_price : Option ℤ
  pub high : Option ℤ
  pub low : Option ℤ
  pub close : Option ℤ

-- The terminal. The answer none is Python's `None`.
pub record Terminal (W : Type 0) : Type 0 where
  pub symbol_info_tick : String → W → Reply (Option TickInfo) × W
  pub account_info : W → Reply (Option AccountInfo) × W
  pub order_calc_margin : ℕ → String → ℕ → ℤ → W → Reply (Option ℤ) × W
  pub positions_get : String → W → Reply (Option (List PositionInfo)) × W
  pub copy_rates_range : String → ℤ → ℤ → W → Reply (Option (List RateInfo)) × W
  pub history_deals_get : ℕ → W → Reply (Option (List DealInfo)) × W

pub record Position : Type 0 where
  pub ticket : ℕ
  pub side : String
  pub volume : ℕ
  pub open_price : ℤ
  pub sl : ℤ
  pub tp : ℤ
  pub profit : ℤ

abbrev pub tick_from : Reply (Option TickInfo) → Reply Tick
tick_from (raised e) = raised e
tick_from (answered none) = raised "no tick data"
tick_from (answered (some t)) =
    let ask = number_or t.ask (pos 0) in
    let bid = number_or t.bid (pos 0) in
    if leb_ℤ ask (pos 0) || leb_ℤ bid (pos 0)
    then raised "tick has no usable ask/bid"
    else answered (record {
      twice_price = ask +ℤ bid;
      ask = ask;
      bid = bid;
      spread_pts = round_signed (ask -ℤ bid) 100;
      time = opt_or t.time 0;
    })

abbrev pub account_from : Reply (Option AccountInfo) → Option AccountInfo
account_from (raised e) = none
account_from (answered a) = a

abbrev pub position_of : PositionInfo → Position
position_of p = record {
  ticket = opt_or p.ticket 0;
  side = if opt_or p.kind 0 == 0 then "BUY" else "SELL";
  volume = opt_or p.volume 0;
  open_price = number_or p.price_open (pos 0);
  sl = number_or p.sl (pos 0);
  tp = number_or p.tp (pos 0);
  profit = number_or p.profit (pos 0);
}

abbrev pub positions_from : Reply (Option (List PositionInfo)) → List Position
positions_from (raised e) = []
positions_from (answered none) = []
positions_from (answered (some ps)) = map position_of ps

abbrev pub rate_of : RateInfo → Rate
rate_of r = record {
  time = opt_or r.time 0;
  open_price = number_or r.open_price (pos 0);
  high = number_or r.high (pos 0);
  low = number_or r.low (pos 0);
  close = number_or r.close (pos 0);
}

abbrev pub rates_from : Reply (Option (List RateInfo)) → List Rate
rates_from (raised e) = []
rates_from (answered none) = []
rates_from (answered (some rs)) = map rate_of rs

abbrev pub margin_from : Reply (Option ℤ) → ℤ
margin_from (raised e) = pos 0
margin_from (answered m) = number_or m (pos 0)

abbrev pub balance_of : Option AccountInfo → Option ℤ
balance_of none = none
balance_of (some a) = some (number_or a.balance (pos 0))

abbrev pub free_margin_of : Option AccountInfo → Option ℤ
free_margin_of none = none
free_margin_of (some a) = some (number_or a.margin_free (pos 0))

abbrev pub equity_of : Option AccountInfo → Option ℤ
equity_of none = none
equity_of (some a) = some (number_or a.equity (pos 0))

-- `_BUY_WORDS`
abbrev pub order_type_of : String → ℕ
order_type_of d = if str_mem (upper d) ("UP" ∷ "BUY" ∷ "LONG" ∷ []) then 0 else 1

abbrev pub Desk : Type 0 → Type 0
Desk W = Cache (Reply Tick) (Option AccountInfo) (List Position) × W

module _ {W : Type 0} (mt5 : Terminal W) (symbol : String) where
  -- The three `_fetch_` methods.
  unfoldable pub venue : Venue (Reply Tick) (Option AccountInfo) (List Position) W
  venue = record {
    fetch_tick = λ w. let (r, w') = mt5.symbol_info_tick symbol w in (tick_from r, w');
    fetch_account = λ w. let (r, w') = mt5.account_info w in (account_from r, w');
    fetch_positions = λ w. let (r, w') = mt5.positions_get symbol w in (positions_from r, w');
  }

  unfoldable pub get_balance : Desk W → Option ℤ × Desk W
  get_balance s = let (a, s') = get_account venue s in (balance_of a, s')

  unfoldable pub get_free_margin : Desk W → Option ℤ × Desk W
  get_free_margin s = let (a, s') = get_account venue s in (free_margin_of a, s')

  unfoldable pub get_equity : Desk W → Option ℤ × Desk W
  get_equity s = let (a, s') = get_account venue s in (equity_of a, s')

  -- Not cached.
  unfoldable pub get_margin_for : String → ℕ → ℤ → W → ℤ × W
  get_margin_for direction volume price w =
      let (r, w') = mt5.order_calc_margin (order_type_of direction) symbol volume price w in
      (margin_from r, w')

  unfoldable pub get_rates_range : ℤ → ℤ → W → List Rate × W
  get_rates_range from_ts to_ts w =
      let (r, w') = mt5.copy_rates_range symbol from_ts to_ts w in (rates_from r, w')

  unfoldable pub get_closed_deal : ℕ → W → Option ClosedDeal × W
  get_closed_deal ticket w =
      let (r, w') = mt5.history_deals_get ticket w in (deals_from ticket r, w')

  -- `state`, on what the session opens answer then.
  unfoldable pub state : (String → ℤ) → String → Desk W → MarketState × Desk W
  state opens session s =
      let (t, s1) = get_tick venue s in
      let (b, s2) = get_balance s1 in
      let (f, s3) = get_free_margin s2 in
      let (ps, s4) = get_open_positions venue s3 in
      (state_of t b f (length ps) session (shown_open opens session), s4)
