-- ===== src/Tests/Venues.antt =====
-- The two venues on small data.
use zcastor_agent.Base.{
  ℕ, suc, ◌+◌, String-discrete, ◌≡◌, refl, true, none, some, List, [], ◌∷◌, length, ◌⊎◌,
}
use zcastor_agent.Base.Int.{pos, negsuc, ◌+ℤ◌, ◌*ℤ◌}
use zcastor_agent.Base.Text.{upper}
use zcastor_agent.Market.Port.{
  raised, answered, state_of, get_tick, get_account, get_open_positions,
}
use zcastor_agent.Market.Port.Instant.{Read, reads}
use zcastor_agent.Market.Mt5.{
  Terminal, venue, state, Desk, get_closed_deal, balance_of, free_margin_of,
}
use zcastor_agent.Market.Mt5.Deals.{DealInfo, deals_from}
use zcastor_agent.Market.Mt5.Realised.{IsRealised, get_closed_deal-IsRealised}
use zcastor_agent.Market.Mt5.Shown.{state-reads}
use zcastor_agent.Execution.Spot.{
  Exchange, lot_size, notional, Placer, market_order, load_filters, round_qty, close_position,
}
use zcastor_agent.Execution.Spot.Sent.{
  market_order-IsSafe, IsSafe, close_position-IsUndone, IsUndone,
}

-- A terminal whose prices move with each call, which it counts.
abbrev deal_in : DealInfo
deal_in = record {
  profit = some (pos 0);
  swap = none;
  commission = some (negsuc 49);
  fee = none;
  entry = some 0;
  volume = some 10;
  price = some (pos 6000000);
  time = some 100;
}

abbrev deal_out : DealInfo
deal_out = record {
  profit = some (pos 500);
  swap = none;
  commission = some (negsuc 49);
  fee = none;
  entry = some 1;
  volume = some 10;
  price = some (pos 6005000);
  time = some 900;
}

abbrev terminal : Terminal ℕ
terminal = record {
  symbol_info_tick = λ s n. (
    answered
        (some (record { ask = some (pos (6000000 + n)); bid = some (pos 5996000); time = some n })),
    suc n,
  );
  account_info = λ n. (
    answered (
        some (record {
          balance = some (pos (100000 + n));
          margin_free = some (pos 90000);
          equity = some (pos 100000);
        })),
    suc n,
  );
  order_calc_margin = λ k s v p n. (raised "no", n);
  positions_get = λ s n. (answered none, suc n);
  copy_rates_range = λ s a b n. (answered none, n);
  history_deals_get = λ t n. (answered (some (deal_in ∷ deal_out ∷ [])), n);
}

abbrev opened : Desk ℕ
opened = (record { tick = none; account = none; positions = none }, 7)

abbrev later : List Read
later = Read.account ∷ Read.tick ∷ Read.positions ∷ []

state-reads_example :
    (let (t, s1) = get_tick (venue terminal "BTCUSD") opened in
      let (a, s2) = get_account (venue terminal "BTCUSD") s1 in
      let (ps, s3) = get_open_positions (venue terminal "BTCUSD") s2 in
      state terminal "BTCUSD" (λ s. pos 5990000) "London" (reads (venue terminal "BTCUSD") later s3)
      ≡ (
        state_of t (balance_of a) (free_margin_of a) (length ps) "London" (some (pos 5990000)),
        reads (venue terminal "BTCUSD") later s3,
      ))
unfolding String-discrete
state-reads_example = state-reads terminal "BTCUSD" later (λ s. pos 5990000) "London" opened

closed_for_four :
    (get_closed_deal terminal "BTCUSD" 5 0).0
    ≡ some (record {
      ticket = 5;
      pnl = pos 400;
      close_price = pos 6005000;
      close_time = 900;
      win = true;
    })
unfolding get_closed_deal deals_from ◌+ℤ◌ ◌*ℤ◌
closed_for_four = refl

get_closed_deal-IsRealised_example :
    IsRealised (deal_in ∷ deal_out ∷ []) (get_closed_deal terminal "BTCUSD" 5 0).0
get_closed_deal-IsRealised_example =
    get_closed_deal-IsRealised terminal "BTCUSD" 5 0 0 (deal_in ∷ deal_out ∷ []) refl

-- An exchange that fills every order; its world is the number of orders.
abbrev exchange : Exchange ℕ
exchange = record {
  exchange_info = λ s n. (answered (lot_size (some 1000) ∷ notional (some 50000) ∷ []), n);
  order = λ r n. (
    answered (record {
      fills = record { qty = some r.quantity; price = some 600000000 } ∷ [];
      order_id = n;
    }),
    suc n,
  );
  my_trades = λ s t n. (answered (record { qty = some 100500; price = some 600000000 } ∷ []), n);
}

abbrev placer : Placer
placer = record { symbol = "BTCUSDT"; volume = 100500; step = none; min_notional = 0 }

market_order-IsSafe_example :
    (market_order exchange "buy" 600000000 0 none placer 0 ≡ (raised "bad side", placer, 0))
    ⊎ (let (p', w') = load_filters exchange placer 0 in
        ((upper "buy" ≡ "BUY") ⊎ (upper "buy" ≡ "SELL"))
        × IsSafe exchange
            (upper "buy")
            100500
            600000000
            p'
            w'
            (market_order exchange "buy" 600000000 0 none placer 0))
market_order-IsSafe_example = market_order-IsSafe exchange "buy" 600000000 0 none placer 0

-- One order, of a hundred whole steps.
one_order : (market_order exchange "buy" 600000000 0 none placer 0).2 ≡ 1
unfolding market_order round_qty load_filters upper String-discrete
one_order = refl

close_position-IsUndone_example :
    (let (p', w') = load_filters exchange placer 4 in
      IsUndone exchange "BUY" 100500 p' w' (close_position exchange 3 "BUY" placer 4))
close_position-IsUndone_example =
    close_position-IsUndone exchange 3 "BUY" placer 4 4
      (record { qty = some 100500; price = some 600000000 } ∷ []) refl
