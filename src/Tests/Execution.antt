-- ===== src/Tests/Execution.antt =====
-- A terminal, a broker and a journal of one trade, for the orders and their booking.
use zcastor_agent.Base.{
  refl, ℕ, ◌+◌, str_eq, ◌≡◌, arith, Bool, true, false, not, ◌&&◌, Option, none, some, List, [], ◌∷◌,
  ◌==◌, if◌then◌else◌, length, String-discrete, ap, String,
}
use zcastor_agent.Base.Int.{pos}
use zcastor_agent.Base.Text.{upper, show}
use zcastor_agent.Execution.Orders.{
  SendAnswer, returned, error, Terminal, OrderPlacer, market_order, market_request, send, try_modes,
  after_send, settled, Request,
}
use zcastor_agent.Execution.Orders.Requests.{booking, Fills, IsHonest, market_order-Fills}
use zcastor_agent.Execution.Journal.{Trade, Deal, is_closed, Journal, IsJournal}
use zcastor_agent.Execution.Booking.{Broker, poll}
use zcastor_agent.Market.Binance.Unbooked.{live_tickets, poll-Binance}
use zcastor_agent.Execution.Booking.Once.{
  listing, mem, IsDistinct, opened, polled, booked, history, history-booked_once,
}

-- The first filling mode is refused, the second is done.
abbrev fussy : Terminal ℕ
fussy = record {
  order_send = λ r n. (returned (if n == 0 then 10030 else 10009) 42 "", n + 1);
  last_error = λ n. ("", n);
  symbol_info_tick = λ n. (some (pos 6001000, pos 6000000), n);
  positions_get = λ n. ([], n);
}

abbrev placer : OrderPlacer
placer = record { volume = 1; rounded = λ x. x }

-- It executes every call but the first.
abbrev after_first : Request → ℕ → Bool
after_first r n = not (n == 0)

abbrev code_of : SendAnswer → ℕ
code_of (returned code order text) = code
code_of a = 0

done_later :
    (first : Bool) (order : ℕ) (text : String)
    → returned (if first then 10030 else 10009) 42 "" ≡ returned 10009 order text
    → not first ≡ true
done_later true order text h = let codes : 10030 ≡ 10009 = ap code_of h in ground (arith, codes)
done_later false order text h = refl

refused_first :
    (first : Bool) (order : ℕ) (text : String)
    → returned (if first then 10030 else 10009) 42 "" ≡ returned 10030 order text
    → not first ≡ false
refused_first true order text h = refl
refused_first false order text h = let codes : 10009 ≡ 10030 = ap code_of h in ground (arith, codes)

fussy-IsHonest : IsHonest after_first fussy
fussy-IsHonest = record {
  done = λ r n order text h. done_later (n == 0) order text h;
  bad_filling = λ r n order text h. refused_first (n == 0) order text h;
}

market_order-Fills_example :
    let (a, w) =
      market_order
        (booking after_first fussy)
        placer
        "buy"
        (pos 6001000)
        (pos 5981000)
        none
        (0, []) in
    Fills a
      (market_request placer (str_eq (upper "buy") "BUY") (pos 6001000) (pos 5981000) none)
      []
      w.1
market_order-Fills_example =
    market_order-Fills after_first fussy fussy-IsHonest placer "buy" (pos 6001000) (pos 5981000)
      none (0, [])

-- A terminal that fills an order in part, which it answers with 10010.
abbrev partial : Terminal ℕ
partial = record fussy { order_send = λ r n. (returned 10010 42 "", n + 1) }

-- The caller is told of an error, while a position is open.
partial_fill :
    let (a, w) =
      market_order
        (booking (λ r n. true) partial)
        placer
        "buy"
        (pos 6001000)
        (pos 5981000)
        none
        (0, []) in
    (a ≡ error "order rejected (retcode 10010): ") × (length w.1 ≡ 1)
unfolding market_order send try_modes after_send settled booking String-discrete upper show
partial_fill = (refl, refl)

-- A journal that has room for one trade.
abbrev get_one : ℕ → Option Trade → Option Trade
get_one t none = none
get_one t (some r) = if r.ticket == t then some r else none

abbrev open_one : Trade → Option Trade → Option Trade
open_one t none = some t
open_one t (some r) = some r

abbrev close_one : ℕ → Deal → Option Trade → Bool × Option Trade
close_one t d none = (false, none)
close_one t d (some r) =
    if r.ticket == t && not r.closed
    then (true, some (record r { closed = true; pnl = d.pnl }))
    else (false, some r)

abbrev open_one_ticket : Option Trade → List ℕ
open_one_ticket none = []
open_one_ticket (some r) = if r.closed then [] else r.ticket ∷ []

abbrev journal : Journal (Option Trade)
journal = record {
  get = get_one;
  open_tickets = open_one_ticket;
  open_trade = open_one;
  close_trade = close_one;
}

get_one-ticket : (t : ℕ) (s : Option Trade) {r : Trade} → get_one t s ≡ some r → r.ticket ≡ t
get_one-ticket t s h = ground arith

close_one-closes :
    (t : ℕ) (d : Deal) (s : Option Trade)
    → (close_one t d s).0 ≡ true
    → is_closed (get_one t (close_one t d s).1) ≡ true
close_one-closes t d s h = ground arith

close_one-keeps :
    (t u : ℕ) (d : Deal) (s : Option Trade)
    → is_closed (get_one u s) ≡ true
    → is_closed (get_one u (close_one t d s).1) ≡ true
close_one-keeps t u d s h = ground arith

open_one-keeps :
    (r : Trade) (u : ℕ) (s : Option Trade)
    → is_closed (get_one u s) ≡ true
    → is_closed (get_one u (open_one r s)) ≡ true
open_one-keeps r u s h = ground arith

journal-IsJournal : IsJournal journal
journal-IsJournal = record {
  ticket_kept = λ t s h. get_one-ticket t s h;
  closes = close_one-closes;
  close_keeps = close_one-keeps;
  open_keeps = open_one-keeps;
}

abbrev trade : Trade
trade = record {
  ticket = 42;
  signal_id = "s1";
  direction = "UP";
  timeframe = "1h";
  session = "London";
  route = "market";
  entry_price = pos 6001000;
  sl = pos 5981000;
  tp = pos 0;
  volume = 1;
  closed = false;
  pnl = pos 0;
}

-- Every deal has closed with a gain, and nothing is open any more.
abbrev broker : Broker ℕ
broker = record {
  get_closed_deal =
      λ t n. (some (record { pnl = pos 500; close_price = pos 6001500; close_time = 9 }), n);
  get_open_positions = λ n. (some [], n);
  record_edge = λ e n. n + 1;
  on_closed = λ t n. n;
}

history-booked_once_example :
    let (s', w') =
      history journal
        (listing broker)
        (record { has_ledger = true; policy_hash = "p" })
        (opened trade ∷ polled ∷ booked 42 ∷ polled ∷ [])
        none
        (0, []) in
    IsDistinct w'.1 × ((t : ℕ) → mem t w'.1 ≡ true → is_closed (get_one t s') ≡ true)
history-booked_once_example =
    history-booked_once journal broker (record { has_ledger = true; policy_hash = "p" })
      journal-IsJournal (opened trade ∷ polled ∷ booked 42 ∷ polled ∷ []) none 0

-- The broker of an exchange without positions: the open trades are the live ones.
abbrev spot_broker : Broker ℕ
spot_broker = record broker {
  get_open_positions = λ n. (some (live_tickets journal (some trade)), n);
}

poll-Binance_example :
    poll journal spot_broker (record { has_ledger = true; policy_hash = "p" }) (some trade) 0
    ≡ ([], some trade, 0)
poll-Binance_example =
    poll-Binance journal spot_broker (record { has_ledger = true; policy_hash = "p" }) (some trade)
      0 refl
