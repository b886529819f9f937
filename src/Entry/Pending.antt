-- ===== src/Entry/Pending.antt =====
-- zcastor/entry/pending.py: one armed entry, and the state machine that waits for its level. Prices
-- are integers in one fixed unit, and times are in milliseconds.
pub mod Mirror
pub mod Sweep
use zcastor_agent.Base.{
  ℕ, ◌+◌, ◌*◌, String, str_mem, str_eq, Bool, true, false, not, ◌&&◌, ◌||◌, Option, none, some,
  List, [], ◌∷◌, ltb, if◌then◌else◌, opt_or,
}
use zcastor_agent.Base.Dict.{Dict, lookup}
use zcastor_agent.Base.Int.{ℤ, pos, ◌+ℤ◌, ◌-ℤ◌, leb_ℤ, abs}
use zcastor_agent.Base.Text.{lower}

abbrev pub buy_words : List String
buy_words = "up" ∷ "buy" ∷ "long" ∷ []

-- The `watcher` block of the policy that an entry reads, with the key that each value has there.
pub record WatcherPolicy : Type 0 where
  pub expiry_min_by_tf : Dict ℕ
  pub expiry_min_default : Option ℕ
  pub confirm_pts : Option ℤ
  pub invalidate_pts : Option ℤ
  pub zone_touch_pts : Option ℤ

-- Points, in the unit of the prices: hundredths.
abbrev pub points : ℕ → ℤ
points n = pos (n * 100)

-- `expiry_minutes`
unfoldable pub expiry_minutes : WatcherPolicy → String → ℕ
expiry_minutes cfg timeframe =
    opt_or (lookup timeframe cfg.expiry_min_by_tf) (opt_or cfg.expiry_min_default 90)

-- `PendingEntry`, without the copies of the signal and of the derived values that it carries along.
pub record PendingEntry : Type 0 where
  pub signal_id : String
  pub direction : String
  pub zone_price : ℤ
  pub stop_price : ℤ
  pub timeframe : String
  pub session : String
  pub route_kind : String
  pub tp_hint : Option ℤ
  pub created_ts : ℕ
  pub expiry_min : ℕ
  pub reached_zone : Bool
  pub swept : Bool
  pub confirm_pts : ℤ
  pub invalidate_pts : ℤ
  pub zone_touch_pts : ℤ

-- `PendingEntry.create`, at the reading of the clock.
unfoldable pub create :
    WatcherPolicy
    → ℕ
    → (signal_id direction : String) → (zone_price stop_price : ℤ)
    → (timeframe session route_kind : String) → PendingEntry
unfolding expiry_minutes
create cfg now signal_id direction zone_price stop_price timeframe session route_kind = record {
  signal_id = signal_id;
  direction = direction;
  zone_price = zone_price;
  stop_price = stop_price;
  timeframe = timeframe;
  session = session;
  route_kind = route_kind;
  tp_hint = none;
  created_ts = now;
  expiry_min = expiry_minutes cfg timeframe;
  reached_zone = false;
  swept = false;
  confirm_pts = opt_or cfg.confirm_pts (points 40);
  invalidate_pts = opt_or cfg.invalidate_pts (points 60);
  zone_touch_pts = opt_or cfg.zone_touch_pts (points 25);
}

unfoldable pub is_buy : PendingEntry → Bool
is_buy e = str_mem (lower e.direction) buy_words

abbrev pub confirm_price : PendingEntry → ℤ
confirm_price e = if is_buy e then e.zone_price +ℤ e.confirm_pts else e.zone_price -ℤ e.confirm_pts

abbrev pub invalidate_price : PendingEntry → ℤ
invalidate_price e =
    if is_buy e then e.zone_price -ℤ e.invalidate_pts else e.zone_price +ℤ e.invalidate_pts

abbrev pub stop_pts : PendingEntry → ℤ
stop_pts e = abs (e.zone_price -ℤ e.stop_price)

abbrev pub minute : ℕ
minute = 60000

-- `expired`: more than the minutes of the entry have passed since it was made.
unfoldable pub expired : ℕ → PendingEntry → Bool
expired now e = ltb (e.created_ts + e.expiry_min * minute) now

-- 'wait', 'fill' or 'cancel'
pub data Move : Type 0 where
  wait fill cancel : Move

-- `_exhaustion`, with the test of `is_buy` as an argument.
unfoldable pub exhaustion : Bool → PendingEntry → ℤ → PendingEntry × Move
exhaustion true e price =
    let hit = leb_ℤ price e.zone_price in
    let e' = record e { swept = hit || e.swept; reached_zone = hit || e.reached_zone } in
    (
      e',
      if leb_ℤ price (invalidate_price e -ℤ e.invalidate_pts)
          then cancel
          else if e'.swept && leb_ℤ (confirm_price e) price
          then fill
          else wait,
    )
exhaustion false e price =
    let hit = leb_ℤ e.zone_price price in
    let e' = record e { swept = hit || e.swept; reached_zone = hit || e.reached_zone } in
    (
      e',
      if leb_ℤ (invalidate_price e +ℤ e.invalidate_pts) price
          then cancel
          else if e'.swept && leb_ℤ price (confirm_price e)
          then fill
          else wait,
    )

-- `_fresh`, with the test of `is_buy` as an argument.
unfoldable pub fresh : Bool → PendingEntry → ℤ → PendingEntry × Move
fresh true e price =
    if not e.reached_zone
    then (record e { reached_zone = leb_ℤ price (e.zone_price +ℤ e.zone_touch_pts) }, wait)
    else if leb_ℤ price (invalidate_price e)
    then (e, cancel)
    else if leb_ℤ (confirm_price e) price
    then (e, fill)
    else (e, wait)
fresh false e price =
    if not e.reached_zone
    then (record e { reached_zone = leb_ℤ (e.zone_price -ℤ e.zone_touch_pts) price }, wait)
    else if leb_ℤ (invalidate_price e) price
    then (e, cancel)
    else if leb_ℤ price (confirm_price e)
    then (e, fill)
    else (e, wait)

-- `evaluate`
unfoldable pub evaluate : PendingEntry → ℤ → PendingEntry × Move
unfolding exhaustion fresh
evaluate e price =
    if str_eq e.route_kind "exhaustion"
    then exhaustion (is_buy e) e price
    else fresh (is_buy e) e price

-- The loop ends at a fill or a cancel.
unfoldable pub next : PendingEntry → Move → PendingEntry × Move → PendingEntry × Move
next e wait rest = rest
next e fill rest = (e, fill)
next e cancel rest = (e, cancel)

-- The prices of successive cycles, until the entry is filled or cancelled.
unfoldable pub watch : PendingEntry → List ℤ → PendingEntry × Move
unfolding evaluate next
watch e [] = (e, wait)
watch e (p ∷ ps) = let (e', m) = evaluate e p in let rest = watch e' ps in next e' m rest
