-- ===== src/Entry/Watcher.antt =====
-- zcastor/entry/watcher.py: the armed entries, and how each of them ends. The broker, the clocks, the
-- product with `tp_r` and the hooks are parameters; the hooks do not call the watcher.
pub mod Filed
pub mod Endings
pub mod Accounts
pub mod Hooks
pub mod Told
pub mod Arming
use Prim.Native.String.{◌++◌ as append}
use zcastor_agent.Base.{
  ℕ, ◌+◌, ◌*◌, String, str_eq, Bool, true, false, not, Option, none, some, List, [], ◌∷◌, map,
  length, keep_if, ltb, ◌==◌, if◌then◌else◌, opt_or, is_some,
}
use zcastor_agent.Base.Dict.{Dict, lookup, insert, erase, values}
use zcastor_agent.Base.Int.{ℤ, pos, ◌+ℤ◌, ◌-ℤ◌, ◌*ℤ◌, leb_ℤ, ltb_ℤ}
use zcastor_agent.Base.Text.{lower}
use zcastor_agent.Gates.Context.{Fraction}
use zcastor_agent.Entry.Pending.{
  WatcherPolicy, PendingEntry, Move, wait, fill, create, is_buy, stop_pts, expired, evaluate,
}
use zcastor_agent.Entry.Zones.{LevelSignal, Derived, ZoneDerivation, derive}

-- A tick with its two sides.
pub record Tick : Type 0 where
  pub ask : ℤ
  pub bid : ℤ

-- What an order ends with: the venue's answer, or its error.
pub data OrderAnswer : Type 0 where
  placed : Dict String → OrderAnswer
  refused : String → OrderAnswer

-- The arguments of `market_order`.
pub record Order : Type 0 where
  pub buy : Bool
  pub price : ℤ
  pub sl : ℤ
  pub tp : ℤ

-- `market`, `orders`, the clocks and the hooks.
pub record Desk (W : Type 0) : Type 0 where
  pub get_tick : W → Option Tick × W
  pub get_balance : W → Option ℤ × W
  pub get_free_margin : W → Option ℤ × W
  pub market_order : Order → W → OrderAnswer × W
  pub clock : W → ℕ × W
  pub today : W → String × W
  pub on_fill : PendingEntry → Dict String → W → W
  pub on_close : PendingEntry → String → W → W

-- `EntryWatcher`
pub record EntryWatcher : Type 0 where
  pub policy : WatcherPolicy
  pub max_trade_risk_frac : Option Fraction
  pub volume : Fraction
  pub max_hold : ℕ
  pub day_boundary_close : Bool
  pub times_tp_r : ℤ → ℤ
  pub target_pts : ℤ
  pub zones : ZoneDerivation
  pub pending : Dict PendingEntry
  pub armed_day : String

-- The payload and the derived values that `arm` reads.
pub record ArmSignal : Type 0 where
  pub levels : LevelSignal
  pub timeframe : Option String
  pub session : Option String

pub record ArmDerived : Type 0 where
  pub execution_price : Option ℤ
  pub mid : Option ℤ
  pub direction : Option String

-- What `arm` returns: an error, or what was armed.
pub data Armed : Type 0 where
  not_armed : String → Armed
  armed : PendingEntry → Derived → Armed

-- `a or b` on an optional number.
abbrev pub or_number : Option ℤ → ℤ → ℤ
or_number none b = b
or_number (some a) b = if leb_ℤ a (pos 0) then if leb_ℤ (pos 0) a then b else a else a

abbrev pub arm_price : ArmDerived → ℤ
arm_price d = or_number d.execution_price (or_number d.mid (pos 0))

abbrev pub arm_direction : ArmSignal → ArmDerived → String
arm_direction s d = lower (opt_or d.direction (opt_or s.levels.direction ""))

abbrev pub arm_route : String → String
arm_route kind = if str_eq kind "" then "fresh" else kind

module _ {W : Type 0} (b : Desk W) where
  -- `arm` once the zone is derived.
  unfoldable pub arm_at :
      Option Derived
      → String
      → ArmSignal
      → String
      → ArmDerived
      → EntryWatcher
      → W
      → Armed × EntryWatcher × W
  arm_at none id s kind d wt w = (not_armed "no usable level", wt, w)
  arm_at (some z) id s kind d wt w =
      let (now, w') = b.clock w in
      let e =
        create wt.policy now id (arm_direction s d) z.zone_price z.stop_price
          (opt_or s.timeframe "1h") (opt_or s.session "") (arm_route kind) in
      if is_some (lookup id wt.pending)
      then (not_armed "already armed", wt, w')
      else (armed e z, record wt { pending = insert id e wt.pending }, w')

  -- `arm`
  unfoldable pub arm :
      String → ArmSignal → String → ArmDerived → EntryWatcher → W → Armed × EntryWatcher × W
  unfolding arm_at
  arm id s kind d wt w =
      let price = arm_price d in
      if leb_ℤ price (pos 0)
      then (not_armed "no price to arm against", wt, w)
      else arm_at (derive wt.zones s.levels price) id s kind d wt w

  -- `cancel`, with the entry that `pop` returns.
  unfoldable pub close :
      Option PendingEntry → String → String → EntryWatcher → W → Bool × EntryWatcher × W
  close none id reason wt w = (false, wt, w)
  close (some e) id reason wt w =
      (true, record wt { pending = erase id wt.pending }, b.on_close e reason w)

  unfoldable pub cancel : String → String → EntryWatcher → W → Bool × EntryWatcher × W
  unfolding close
  cancel id reason wt w = close (lookup id wt.pending) id reason wt w

  unfoldable pub cancel_all : List String → String → EntryWatcher → W → EntryWatcher × W
  unfolding cancel
  cancel_all [] reason wt w = (wt, w)
  cancel_all (id ∷ ids) reason wt w =
      let (done, wt', w') = cancel id reason wt w in cancel_all ids reason wt' w'

  -- Is a number that may be missing not positive?
  abbrev pub unusable : Option ℤ → Bool
  unusable none = true
  unusable (some v) = leb_ℤ v (pos 0)

  -- `risk / balance > cap`, multiplied out.
  abbrev pub above_cap : PendingEntry → ℤ → EntryWatcher → Bool
  above_cap e balance wt =
      let cap = opt_or wt.max_trade_risk_frac (record { num = 3; den = 10 }) in
      ltb_ℤ (balance *ℤ pos (cap.num * wt.volume.den)) (stop_pts e *ℤ pos (wt.volume.num * cap.den))

  -- `_viable`: why the entry may not be traded, if so. The numbers in the text are left out.
  unfoldable pub viable : PendingEntry → EntryWatcher → W → Option String × W
  viable e wt w =
      let (balance, w₁) = b.get_balance w in
      let (margin, w₂) = b.get_free_margin w₁ in
      if unusable balance
      then (some "balance_unavailable", w₁)
      else if above_cap e (opt_or balance (pos 0)) wt
      then (some "risk_above_cap", w₁)
      else if unusable margin
      then (some "free_margin_unavailable", w₂)
      else (none, w₂)

  -- `_target`
  unfoldable pub target : PendingEntry → ℤ → EntryWatcher → ℤ
  target e price wt =
      let distance = or_number (some wt.target_pts) (wt.times_tp_r (stop_pts e)) in
      or_number e.tp_hint (if is_buy e then price +ℤ distance else price -ℤ distance)

  abbrev pub order_of : PendingEntry → ℤ → EntryWatcher → Order
  order_of e price wt = record {
    buy = is_buy e;
    price = price;
    sl = e.stop_price;
    tp = target e price wt;
  }

  -- `_fire` on the venue's answer.
  unfoldable pub fire_answer :
      OrderAnswer → PendingEntry → EntryWatcher → W → Bool × EntryWatcher × W
  unfolding cancel
  fire_answer (refused error) e wt w =
      let (done, wt', w') = cancel e.signal_id (append "order_failed:" error) wt w in
      (false, wt', w')
  fire_answer (placed result) e wt w =
      (true, record wt { pending = erase e.signal_id wt.pending }, b.on_fill e result w)

  -- `_fire` on the answer of `_viable`.
  unfoldable pub fire_viable :
      Option String → PendingEntry → ℤ → EntryWatcher → W → Bool × EntryWatcher × W
  unfolding fire_answer cancel
  fire_viable (some reason) e price wt w =
      let (done, wt', w') = cancel e.signal_id (append "not_viable_at_fill:" reason) wt w in
      (false, wt', w')
  fire_viable none e price wt w =
      let (answer, w') = b.market_order (order_of e price wt) w in fire_answer answer e wt w'

  -- `_fire`
  unfoldable pub fire : PendingEntry → ℤ → EntryWatcher → W → Bool × EntryWatcher × W
  unfolding fire_viable viable
  fire e price wt w = let (reason, w') = viable e wt w in fire_viable reason e price wt w'

-- The counts of a call of `poll`.
pub record Counts : Type 0 where
  pub filled : ℕ
  pub cancelled : ℕ
  pub expired_n : ℕ

abbrev pub no_counts : Counts
no_counts = record { filled = 0; cancelled = 0; expired_n = 0 }

-- The ids of the entries that were armed too long ago.
abbrev pub stale : ℕ → EntryWatcher → List String
stale now wt =
    map (λ e. e.signal_id) (keep_if (λ e. ltb (e.created_ts + wt.max_hold) now) (values wt.pending))

module _ {W : Type 0} (b : Desk W) where
  -- A round of the loop of `poll` on the verdict. The entry is the object that `_pending` holds.
  unfoldable pub act :
      Move → PendingEntry → ℤ → EntryWatcher → W → Counts → EntryWatcher × W × Counts
  unfolding fire cancel
  act wait e price wt w t = (wt, w, t)
  act Move.cancel e price wt w t =
      let (done, wt', w') = cancel b e.signal_id "level_broke" wt w in
      (wt', w', record t { cancelled = t.cancelled + 1 })
  act fill e price wt w t =
      let (done, wt', w') = fire b e price wt w in
      (
        wt',
        w',
        if done
            then record t { filled = t.filled + 1 }
            else record t { cancelled = t.cancelled + 1 },
      )

  unfoldable pub poll_one :
      ℕ → Tick → PendingEntry → EntryWatcher → W → Counts → EntryWatcher × W × Counts
  unfolding act
  poll_one now tick e wt w t =
      let (done, wt', w') = cancel b e.signal_id "expired" wt w in
      let price = if is_buy e then tick.ask else tick.bid in
      let (e', m) = evaluate e price in
      if expired now e
      then (wt', w', record t { expired_n = t.expired_n + 1 })
      else act m e' price (record wt { pending = insert e.signal_id e' wt.pending }) w t

  unfoldable pub poll_all :
      ℕ → Tick → List PendingEntry → EntryWatcher → W → Counts → EntryWatcher × W × Counts
  unfolding poll_one
  poll_all now tick [] wt w t = (wt, w, t)
  poll_all now tick (e ∷ es) wt w t =
      let (wt', w', t') = poll_one now tick e wt w t in poll_all now tick es wt' w' t'

  -- `_sweep` at the day boundary.
  unfoldable pub sweep_day : EntryWatcher → W → EntryWatcher × W
  unfolding cancel_all
  sweep_day wt w =
      let (today, w₁) = b.today w in
      let (wt', w₂) = cancel_all b (map (λ x. x.0) wt.pending) "day_boundary" wt w₁ in
      if not wt.day_boundary_close
      then (wt, w)
      else if str_eq today wt.armed_day
      then (wt, w₁)
      else (record wt' { armed_day = today }, w₂)

  -- `_sweep`
  unfoldable pub sweep : EntryWatcher → W → EntryWatcher × W
  unfolding sweep_day
  sweep wt w =
      let (now, w₁) = b.clock w in
      let (wt', w₂) = cancel_all b (stale now wt) "max_hold" wt w₁ in sweep_day wt' w₂

  -- `poll` after the sweep, with the tick: `none` where there is none, or it is an error.
  unfoldable pub poll_tick : Option Tick → EntryWatcher → W → EntryWatcher × W × Counts
  unfolding poll_all
  poll_tick none wt w = (wt, w, no_counts)
  poll_tick (some tick) wt w =
      let (now, w') = b.clock w in poll_all now tick (values wt.pending) wt w' no_counts

  -- `poll`. Of what it returns, `pending` is the number of entries that are left, and the mark of a
  -- stalled cycle is left out.
  unfoldable pub poll : EntryWatcher → W → EntryWatcher × W × Counts
  unfolding sweep poll_tick
  poll wt w =
      let (wt', w₁) = sweep wt w in
      let (tick, w₂) = b.get_tick w₁ in
      if length wt'.pending == 0 then (wt', w₁, no_counts) else poll_tick tick wt' w₂
