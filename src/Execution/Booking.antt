-- ===== src/Execution/Booking.antt =====
-- zcastor/execution/booking.py: one path on which closed trades are booked. The journal and the edge
-- ledger are not part of the repository: they are parameters, like the broker.
pub mod Once
use zcastor_agent.Base.{
  ℕ, ◌*◌, String, Bool, true, false, not, Option, none, some, List, [], ◌∷◌, ◌++◌, map, any,
  keep_if, leb, ltb, ◌==◌, if◌then◌else◌, length,
}
use zcastor_agent.Base.Int.{ℤ, pos, pos_part, ◌-ℤ◌, ◌*ℤ◌, abs, leb_ℤ}
use zcastor_agent.Base.Sort.{sort_by}
use zcastor_agent.Execution.Journal.{Trade, Deal, Journal}

-- What `_record_edge` gives the ledger: the R-multiple is a fraction, of the profit over the risk.
pub record Edge : Type 0 where
  pub timeframe : String
  pub session : String
  pub route : String
  pub pnl : ℤ
  pub risk : ℤ
  pub signal_id : String
  pub policy : String

-- The broker, the ledger and the hook. The open tickets are `none` where the call raises.
pub record Broker (W : Type 0) : Type 0 where
  pub get_closed_deal : ℕ → W → Option Deal × W
  pub get_open_positions : W → Option (List ℕ) × W
  pub record_edge : Edge → W → W
  pub on_closed : Trade → W → W

-- `Booker`
pub record Booker : Type 0 where
  pub has_ledger : Bool
  pub policy_hash : String

-- The risk that was taken, from the stop at the entry.
abbrev pub risk_of : Trade → ℤ
risk_of t = abs (t.entry_price -ℤ t.sl) *ℤ pos t.volume

-- A ticket once, in the order of its first occurrence.
abbrev pub unique : List ℕ → List ℕ
unique [] = []
unique (x ∷ xs) = x ∷ keep_if (λ y. not (y == x)) (unique xs)

-- `sorted(expected - live)`
abbrev pub gone : List ℕ → List ℕ → List ℕ
gone expected live = sort_by leb (keep_if (λ x. not (any (λ y. x == y) live)) (unique expected))

module _ {J W : Type 0} (j : Journal J) (b : Broker W) (k : Booker) where
  -- `_record_edge`
  unfoldable pub note_edge : Trade → W → W
  note_edge t w =
      if not k.has_ledger
      then w
      else if leb_ℤ (risk_of t) (pos 0)
      then w
      else b.record_edge
          (record {
            timeframe = t.timeframe;
            session = t.session;
            route = t.route;
            pnl = t.pnl;
            risk = risk_of t;
            signal_id = t.signal_id;
            policy = k.policy_hash;
          })
          w

  -- `book` once the journal has taken the close, on the trade that it then has.
  unfoldable pub announce : Option Trade → J → W → Option Trade × J × W
  unfolding note_edge
  announce none s w = (none, s, w)
  announce (some t) s w = (some t, s, b.on_closed t (note_edge t w))

  -- `book` on the deal.
  unfoldable pub book_deal : Option Deal → ℕ → J → W → Option Trade × J × W
  unfolding announce
  book_deal none ticket s w = (none, s, w)
  book_deal (some d) ticket s w =
      let (taken, s') = j.close_trade ticket d s in
      if taken then announce (j.get ticket s') s' w else (none, s', w)

  -- `book` on the trade of the ticket.
  unfoldable pub book_trade : Option Trade → ℕ → J → W → Option Trade × J × W
  unfolding book_deal
  book_trade none ticket s w = (none, s, w)
  book_trade (some t) ticket s w =
      let (deal, w') = b.get_closed_deal ticket w in
      if t.closed then (none, s, w) else book_deal deal ticket s w'

  -- `book`
  unfoldable pub book : ℕ → J → W → Option Trade × J × W
  unfolding book_trade
  book ticket s w = book_trade (j.get ticket s) ticket s w

  -- The loop of `poll`.
  unfoldable pub book_all : List ℕ → J → W → List Trade × J × W
  unfolding book
  book_all [] s w = ([], s, w)
  book_all (ticket ∷ tickets) s w =
      let (r, s', w') = book ticket s w in
      let (rs, s'', w'') = book_all tickets s' w' in
      (elim r [ none ↦ rs | some t ↦ t ∷ rs ], s'', w'')

  unfoldable pub poll_live : Option (List ℕ) → J → W → List Trade × J × W
  unfolding book_all
  poll_live none s w = ([], s, w)
  poll_live (some live) s w = book_all (gone (j.open_tickets s) live) s w

  -- `ClosePoller.poll`
  unfoldable pub poll : J → W → List Trade × J × W
  unfolding poll_live
  poll s w =
      let (live, w') = b.get_open_positions w in
      if length (j.open_tickets s) == 0 then ([], s, w) else poll_live live s w'
