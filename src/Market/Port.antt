-- ===== src/Market/Port.antt =====
-- zcastor/market/mt5.py and binance.py: the reads of one decision, cached. The class keeps one cache
-- under text keys; each key holds values of its own type, so it is a record here. The lock is left
-- out.
pub mod Instant
use zcastor_agent.Base.{ℕ, String, Option, none, some, str_eq, if◌then◌else◌}
use zcastor_agent.Base.Int.{ℤ, pos}

-- What a call gives: the text of its exception, or its answer.
pub data Reply (A : Type 0) : Type 0 where
  raised : String → Reply A
  answered : A → Reply A

-- What `_fetch_tick` gives where it can; `twice_price` is twice the mid, which has no rounding.
pub record Tick : Type 0 where
  pub twice_price : ℤ
  pub ask : ℤ
  pub bid : ℤ
  pub spread_pts : ℤ
  pub time : ℕ

-- A bar of `get_rates_range`.
pub record Rate : Type 0 where
  pub time : ℕ
  pub open_price : ℤ
  pub high : ℤ
  pub low : ℤ
  pub close : ℤ

-- `state`: what the proof of state hashes.
pub record MarketState : Type 0 where
  pub tick_time : ℕ
  pub ask : ℤ
  pub bid : ℤ
  pub spread_pts : ℤ
  pub balance : Option ℤ
  pub free_margin : Option ℤ
  pub open_positions : ℕ
  pub session : String
  pub session_open : Option ℤ

-- The open that the state shows: none without a session.
abbrev pub shown_open : (String → ℤ) → String → Option ℤ
shown_open opens session = if str_eq session "" then none else some (opens session)

-- The dict's `get`, zero on a tick that is an error.
abbrev pub state_of : Reply Tick → Option ℤ → Option ℤ → ℕ → String → Option ℤ → MarketState
state_of (raised e) balance free_margin n session session_open = record {
  tick_time = 0;
  ask = pos 0;
  bid = pos 0;
  spread_pts = pos 0;
  balance = balance;
  free_margin = free_margin;
  open_positions = n;
  session = session;
  session_open = session_open;
}
state_of (answered t) balance free_margin n session session_open = record {
  tick_time = t.time;
  ask = t.ask;
  bid = t.bid;
  spread_pts = t.spread_pts;
  balance = balance;
  free_margin = free_margin;
  open_positions = n;
  session = session;
  session_open = session_open;
}

-- The keys "tick", "account" and "positions".
pub record Cache (T A P : Type 0) : Type 0 where
  pub tick : Option T
  pub account : Option A
  pub positions : Option P

-- What fetches a value, in the world of the venue.
pub record Venue (T A P W : Type 0) : Type 0 where
  pub fetch_tick : W → T × W
  pub fetch_account : W → A × W
  pub fetch_positions : W → P × W

-- `_cached`, for one key: what the key holds, or what the producer makes.
abbrev pub cached : {V W : Type 0} → Option V → (W → V × W) → W → V × W
cached none producer w = producer w
cached (some v) producer w = (v, w)

-- `begin`
unfoldable pub begin : {T A P : Type 0} → Cache T A P → Cache T A P
begin c = record { tick = none; account = none; positions = none }

module _ {T A P W : Type 0} where
  unfoldable pub get_tick : Venue T A P W → Cache T A P × W → T × (Cache T A P × W)
  get_tick v (c, w) =
      let (t, w') = cached c.tick v.fetch_tick w in (t, (record c { tick = some t }, w'))

  -- `_account`
  unfoldable pub get_account : Venue T A P W → Cache T A P × W → A × (Cache T A P × W)
  get_account v (c, w) =
      let (a, w') = cached c.account v.fetch_account w in (a, (record c { account = some a }, w'))

  unfoldable pub get_open_positions : Venue T A P W → Cache T A P × W → P × (Cache T A P × W)
  get_open_positions v (c, w) =
      let (p, w') = cached c.positions v.fetch_positions w in
      (p, (record c { positions = some p }, w'))
