-- ===== src/Execution/Journal.antt =====
-- The trade journal, as zcastor/execution/booking.py and engine.py use it.
use zcastor_agent.Base.{ℕ, String, ◌≡◌, Bool, true, false, Option, none, some, List}
use zcastor_agent.Base.Int.{ℤ}

-- A row of the journal. The profit is that of its close.
pub record Trade : Type 0 where
  pub ticket : ℕ
  pub signal_id : String
  pub direction : String
  pub timeframe : String
  pub session : String
  pub route : String
  pub entry_price : ℤ
  pub sl : ℤ
  pub tp : ℤ
  pub volume : ℕ
  pub closed : Bool
  pub pnl : ℤ

-- What the broker's history says of a closed position.
pub record Deal : Type 0 where
  pub pnl : ℤ
  pub close_price : ℤ
  pub close_time : ℕ

abbrev pub is_closed : Option Trade → Bool
is_closed none = false
is_closed (some t) = t.closed

-- The journal's operations. The laws are what booking.py says of it: a close that is taken leaves
-- the trade closed, no other trade is touched, and a trade that is closed stays so; a trade is found
-- under its own ticket.
pub record Journal (J : Type 0) : Type 0 where
  pub get : ℕ → J → Option Trade
  pub open_tickets : J → List ℕ
  pub open_trade : Trade → J → J
  pub close_trade : ℕ → Deal → J → Bool × J

pub record IsJournal {J : Type 0} (j : Journal J) : Type 0 where
  pub ticket_kept : (t : ℕ) (s : J) {r : Trade} → j.get t s ≡ some r → r.ticket ≡ t
  pub closes :
      (t : ℕ) (d : Deal) (s : J)
      → (j.close_trade t d s).0 ≡ true
      → is_closed (j.get t (j.close_trade t d s).1) ≡ true
  pub close_keeps :
      (t u : ℕ) (d : Deal) (s : J)
      → is_closed (j.get u s) ≡ true
      → is_closed (j.get u (j.close_trade t d s).1) ≡ true
  pub open_keeps :
      (r : Trade) (u : ℕ) (s : J)
      → is_closed (j.get u s) ≡ true
      → is_closed (j.get u (j.open_trade r s)) ≡ true
