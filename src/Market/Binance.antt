-- ===== src/Market/Binance.antt =====
-- zcastor/market/binance.py: `BinanceMarketData` on the exchange, which is a parameter: its client
-- signs and sends the requests. Amounts of the quote asset are in ten-thousandths, quantities in
-- hundred-millionths.
pub mod Unbooked
use zcastor_agent.Base.{
  ℕ, zero, suc, ◌+◌, ◌*◌, String, Bool, true, false, ◌||◌, not, Option, none, some,
}
use zcastor_agent.Base.{List, [], ◌∷◌, map, length, ltb, ◌==◌, str_eq, opt_or, if◌then◌else◌}
use zcastor_agent.Base.{◌/◌}
use zcastor_agent.Base.Int.{ℤ, pos, pos_part, ◌+ℤ◌, ◌-ℤ◌, ◌*ℤ◌, leb_ℤ, neg}
use zcastor_agent.Base.Text.{upper}
use zcastor_agent.Gates.Feed.{round_signed}
use zcastor_agent.Execution.Journal.{Trade, Journal}
use zcastor_agent.Market.Port.{
  Reply, raised, answered, Tick, MarketState, Rate, shown_open, state_of, Cache, cached,
}
use zcastor_agent.Market.Port.{Venue, get_tick, get_account}

-- The answers of the exchange; a number is none where `float` refuses it.
pub record Book : Type 0 where
  pub ask_price : Option ℤ
  pub bid_price : Option ℤ

pub record Balance : Type 0 where
  pub asset : String
  pub free : Option ℤ
  pub locked : Option ℤ

pub record Fill : Type 0 where
  pub qty : Option ℕ
  pub quote_qty : Option ℕ
  pub commission : Option ℕ
  pub commission_asset : String
  pub time_ms : ℕ

-- A row of klines; its first number is a time in milliseconds.
pub record Kline : Type 0 where
  pub time_ms : ℕ
  pub open_price : Option ℤ
  pub high : Option ℤ
  pub low : Option ℤ
  pub close : Option ℤ

-- `BinanceClient.request`, for the addresses that the port reads.
pub record Exchange (W : Type 0) : Type 0 where
  pub book_ticker : String → W → Reply Book × W
  pub account : W → Reply (List Balance) × W
  pub klines : String → ℤ → ℤ → W → Reply (List Kline) × W
  pub my_trades : String → ℕ → W → Reply (List Fill) × W

-- `spread_pts` is in hundredths of the quote asset, and the sum of both sides stands for a time.
abbrev pub tick_from : Reply Book → Reply Tick
tick_from (raised e) = raised e
tick_from (answered b) =
    let ask = opt_or b.ask_price (pos 0) in
    let bid = opt_or b.bid_price (pos 0) in
    if leb_ℤ ask (pos 0) || leb_ℤ bid (pos 0)
    then raised "book has no usable ask/bid"
    else answered (record {
      twice_price = ask +ℤ bid;
      ask = ask;
      bid = bid;
      spread_pts = round_signed (ask -ℤ bid) 100;
      time = pos_part (ask +ℤ bid);
    })

abbrev pub account_from : Reply (List Balance) → Option (List Balance)
account_from (raised e) = none
account_from (answered bs) = some bs

-- The first balance of the quote asset, zero where there is none.
abbrev pub quote_of : (Balance → ℤ) → String → List Balance → ℤ
quote_of amount quote [] = pos 0
quote_of amount quote (b ∷ bs) =
    let rest = quote_of amount quote bs in if str_eq b.asset quote then amount b else rest

abbrev pub balance_of : String → Option (List Balance) → Option ℤ
balance_of quote none = none
balance_of quote (some bs) =
    some (quote_of (λ b. opt_or b.free (pos 0) +ℤ opt_or b.locked (pos 0)) quote bs)

abbrev pub free_of : String → Option (List Balance) → Option ℤ
free_of quote none = none
free_of quote (some bs) = some (quote_of (λ b. opt_or b.free (pos 0)) quote bs)

pub record Position : Type 0 where
  pub ticket : ℕ
  pub side : String
  pub volume : ℕ
  pub open_price : ℤ
  pub sl : ℤ
  pub tp : ℤ
  pub profit : ℤ

-- A trade that the journal does not know gives a position of zeros.
abbrev pub position_of : ℕ → Option Trade → Position
position_of ticket none = record {
  ticket = ticket;
  side = "SELL";
  volume = 0;
  open_price = pos 0;
  sl = pos 0;
  tp = pos 0;
  profit = pos 0;
}
position_of ticket (some t) = record {
  ticket = ticket;
  side = if str_eq (upper t.direction) "UP" then "BUY" else "SELL";
  volume = t.volume;
  open_price = t.entry_price;
  sl = t.sl;
  tp = t.tp;
  profit = pos 0;
}

-- `get_open_positions`: the journal's open trades. It is not cached, and asks the exchange nothing.
unfoldable pub get_open_positions : {J : Type 0} → Option (Journal J) → J → List Position
get_open_positions none s = []
get_open_positions (some j) s = map (λ t. position_of t (j.get t s)) (j.open_tickets s)

abbrev pub rate_of : Kline → Rate
rate_of r = record {
  time = r.time_ms / 1000;
  open_price = opt_or r.open_price (pos 0);
  high = opt_or r.high (pos 0);
  low = opt_or r.low (pos 0);
  close = opt_or r.close (pos 0);
}

abbrev pub rates_from : Reply (List Kline) → List Rate
rates_from (raised e) = []
rates_from (answered rs) = map rate_of rs

-- The sums over the fills.
abbrev pub qty_of : List Fill → ℕ
qty_of [] = 0
qty_of (f ∷ fs) = opt_or f.qty 0 + qty_of fs

abbrev pub quote_total_of : List Fill → ℕ
quote_total_of [] = 0
quote_total_of (f ∷ fs) = opt_or f.quote_qty 0 + quote_total_of fs

-- The commissions in the quote asset, over qty: a commission in the base asset is multiplied by the
-- price, which is quote_total / qty.
abbrev pub commission_of : String → ℕ → ℕ → List Fill → ℕ
commission_of quote quote_total qty [] = 0
commission_of quote quote_total qty (f ∷ fs) =
    opt_or f.commission 0 * (if str_eq f.commission_asset quote then qty else quote_total)
    + commission_of quote quote_total qty fs

abbrev pub latest_of : List Fill → ℕ
latest_of [] = 0
latest_of (f ∷ fs) = let rest = latest_of fs in if ltb f.time_ms rest then rest else f.time_ms

pub record ClosedDeal : Type 0 where
  pub ticket : ℕ
  pub pnl : ℤ
  pub close_price : ℤ
  pub close_time : ℕ
  pub win : Bool
  pub qty : ℕ

-- A quantity of zero is replaced by one unit. The close price is in hundredths.
abbrev pub deal_from : String → ℕ → Reply (List Fill) → Option ClosedDeal
deal_from quote ticket (raised e) = none
deal_from quote ticket (answered []) = none
deal_from quote ticket (answered (f ∷ fs)) =
    let sum = qty_of (f ∷ fs) in
    let qty = if sum == 0 then 100000000 else sum in
    let quote_total = quote_total_of (f ∷ fs) in
    some (record {
      ticket = ticket;
      pnl = round_signed (neg (pos (commission_of quote quote_total qty (f ∷ fs)))) qty;
      close_price = round_signed (pos (quote_total * 1000000)) qty;
      close_time = latest_of (f ∷ fs) / 1000;
      win = false;
      qty = qty;
    })

-- The cache; the key of the positions is never used.
abbrev pub Desk : Type 0 → Type 0
Desk W = Cache (Reply Tick) (Option (List Balance)) Unit × W

module _ {W : Type 0} (c : Exchange W) (symbol quote : String) where
  unfoldable pub venue : Venue (Reply Tick) (Option (List Balance)) Unit W
  venue = record {
    fetch_tick = λ w. let (r, w') = c.book_ticker symbol w in (tick_from r, w');
    fetch_account = λ w. let (r, w') = c.account w in (account_from r, w');
    fetch_positions = λ w. (tt, w);
  }

  -- `get_balance`, and `get_equity`, which hands it on.
  unfoldable pub get_balance : Desk W → Option ℤ × Desk W
  get_balance s = let (a, s') = get_account venue s in (balance_of quote a, s')

  unfoldable pub get_free_margin : Desk W → Option ℤ × Desk W
  get_free_margin s = let (a, s') = get_account venue s in (free_of quote a, s')

  unfoldable pub get_closed_deal : ℕ → W → Option ClosedDeal × W
  get_closed_deal ticket w =
      let (r, w') = c.my_trades symbol ticket w in (deal_from quote ticket r, w')

  -- `get_rates_range`: times in seconds, which the address takes in milliseconds.
  unfoldable pub get_rates_range : ℤ → ℤ → W → List Rate × W
  get_rates_range from_ts to_ts w =
      let (r, w') = c.klines symbol (from_ts *ℤ pos 1000) (to_ts *ℤ pos 1000) w in
      (rates_from r, w')

  -- `state`, on what the session opens answer then.
  unfoldable pub state :
      {J : Type 0} → (String → ℤ) → Option (Journal J) → J → String → Desk W → MarketState × Desk W
  state opens j js session s =
      let (t, s1) = get_tick venue s in
      let (b, s2) = get_balance s1 in
      let (f, s3) = get_free_margin s2 in
      (state_of t b f (length (get_open_positions j js)) session (shown_open opens session), s3)

-- `get_margin_for`: the full notional, in hundred-millionths of ten-thousandths.
unfoldable pub get_margin_for : ℕ → ℤ → ℤ
get_margin_for volume price = pos volume *ℤ price
