-- ===== src/Tests/Watcher.antt =====
-- The watcher over a desk that answers the same each time.
use zcastor_agent.Base.{String-discrete, ◌≡◌, refl, true, false, none, some, [], ◌∷◌}
use zcastor_agent.Base.Dict.{lookup, insert}
use zcastor_agent.Base.Int.{pos, ◌+ℤ◌, ◌-ℤ◌, ◌*ℤ◌, ◌<ℤ◌, abs}
use zcastor_agent.Base.Text.{lower, strip}
use zcastor_agent.Entry.Pending.{
  WatcherPolicy, PendingEntry, create, expiry_minutes, evaluate, exhaustion, is_buy, expired,
}
use zcastor_agent.Entry.Zones.{signal_buy, derive, choose, check_chosen, check, positive}
use zcastor_agent.Entry.Zones.Geometry.{IsSound}
use zcastor_agent.Entry.Watcher.{
  placed, Desk, EntryWatcher, ArmSignal, ArmDerived, armed, arm_price, arm, arm_at, sweep,
  sweep_day, poll, poll_tick, poll_all, poll_one, act, fire, fire_viable, fire_answer, viable,
  target, cancel_all,
}
use zcastor_agent.Entry.Watcher.Accounts.{reporting}
use zcastor_agent.Entry.Watcher.Told.{Agrees, poll-tells}
use zcastor_agent.Entry.Watcher.Arming.{arm-IsSound}
use zcastor_agent.Tests.Entry.{entry, zones, signal, zone}

-- The world is not used; the day after the one of the arming, at a price where a reclaim fills.
abbrev desk : Desk Unit
desk = record {
  get_tick = λ w. (some (record { ask = pos 6004000; bid = pos 6003000 }), w);
  get_balance = λ w. (some (pos 100000), w);
  get_free_margin = λ w. (some (pos 50000), w);
  market_order = λ o w. (placed [], w);
  clock = λ w. (1000, w);
  today = λ w. ("2026-01-02", w);
  on_fill = λ e r w. w;
  on_close = λ e r w. w;
}

abbrev cfg : WatcherPolicy
cfg = record {
  expiry_min_by_tf = [];
  expiry_min_default = none;
  confirm_pts = none;
  invalidate_pts = none;
  zone_touch_pts = none;
}

abbrev watcher : EntryWatcher
watcher = record {
  policy = cfg;
  max_trade_risk_frac = none;
  volume = record { num = 1; den = 100 };
  max_hold = 86400000;
  day_boundary_close = false;
  times_tp_r = λ x. x;
  target_pts = pos 40000;
  zones = zones;
  pending = ("s-1", record entry { swept = true }) ∷ [];
  armed_day = "2026-01-01";
}

-- The swept entry is filled in this cycle.
filled_now : (poll desk watcher tt).2.filled ≡ 1
unfolding poll sweep sweep_day cancel_all poll_tick poll_all poll_one act fire viable fire_viable
    target fire_answer evaluate exhaustion is_buy expired lower String-discrete ◌+ℤ◌ ◌-ℤ◌ ◌*ℤ◌ abs
filled_now = refl

poll-tells_example :
    let (swept, w₁) = sweep (reporting desk) watcher (tt, []) in
    let (wt, w, t) = poll (reporting desk) watcher (tt, []) in Agrees desk swept wt w₁.1 w.1 t
poll-tells_example = poll-tells desk watcher (tt, []) (refl, refl, tt)

abbrev daily : EntryWatcher
daily = record watcher { day_boundary_close = true }

abbrev payload : ArmSignal
payload = record { levels = signal; timeframe = some "5m"; session = none }

abbrev derived : ArmDerived
derived = record { execution_price = some (pos 6000000); mid = none; direction = some "UP" }

abbrev new_entry : PendingEntry
new_entry = record {
  signal_id = "s-2";
  direction = "up";
  zone_price = pos 5980000;
  stop_price = pos 5968000;
  timeframe = "5m";
  session = "";
  route_kind = "fresh";
  tp_hint = none;
  created_ts = 1000;
  expiry_min = 90;
  reached_zone = false;
  swept = false;
  confirm_pts = pos 4000;
  invalidate_pts = pos 6000;
  zone_touch_pts = pos 2500;
}

was_armed : (arm desk "s-2" payload "" derived watcher tt).0 ≡ armed new_entry zone
unfolding arm arm_at derive choose check_chosen check positive create expiry_minutes lower strip
    String-discrete ◌+ℤ◌ ◌-ℤ◌ abs
was_armed = refl

arm-IsSound_example :
    (pos 0 <ℤ arm_price derived)
    × IsSound zones (signal_buy signal) (arm_price derived) zone
    × (new_entry.zone_price ≡ zone.zone_price)
    × (new_entry.stop_price ≡ zone.stop_price)
    × ((new_entry.reached_zone ≡ false) × (new_entry.swept ≡ false))
    × (lookup "s-2" watcher.pending ≡ none)
    × ((arm desk "s-2" payload "" derived watcher tt).1.pending
        ≡ insert "s-2" new_entry watcher.pending)
arm-IsSound_example = arm-IsSound desk "s-2" payload "" derived watcher tt was_armed
