-- ===== src/Tests/Entry.antt =====
-- Armed entries and their zones.
use zcastor_agent.Base.{String-discrete, ◌≡◌, refl, ◌≢◌, false, Option, none, some, List, [], ◌∷◌}
use zcastor_agent.Base.Int.{ℤ, pos, neg, ◌+ℤ◌, ◌-ℤ◌, abs}
use zcastor_agent.Base.Text.{lower, strip}
use zcastor_agent.Entry.Pending.{PendingEntry, fill, is_buy, exhaustion, evaluate, watch, next}
use zcastor_agent.Entry.Pending.Mirror.{mirror, mirror-evaluate}
use zcastor_agent.Entry.Pending.Sweep.{watch-sweep}
use zcastor_agent.Entry.Zones.{
  missing, number, LevelSignal, ZoneDerivation, Derived, level_price, derive, signal_buy, positive,
  choose, check_chosen, check,
}
use zcastor_agent.Entry.Zones.Geometry.{IsSound, derive-IsSound}

abbrev pub entry : PendingEntry
entry = record {
  signal_id = "s-1";
  direction = "UP";
  zone_price = pos 6000000;
  stop_price = pos 5988000;
  timeframe = "5m";
  session = "London";
  route_kind = "exhaustion";
  tp_hint = none;
  created_ts = 0;
  expiry_min = 90;
  reached_zone = false;
  swept = false;
  confirm_pts = pos 4000;
  invalidate_pts = pos 6000;
  zone_touch_pts = pos 2500;
}

-- Neither price reaches the level, though both would confirm the entry.
abbrev above_zone : List ℤ
above_zone = pos 6005000 ∷ pos 6004000 ∷ []

watch-sweep_example : (watch entry above_zone).1 ≢ fill
unfolding is_buy lower String-discrete
watch-sweep_example = watch-sweep entry above_zone refl refl refl

mirror-evaluate_example :
    evaluate (mirror "down" entry) (neg (pos 5999000))
    ≡ (mirror "down" (evaluate entry (pos 5999000)).0, (evaluate entry (pos 5999000)).1)
unfolding is_buy lower String-discrete
mirror-evaluate_example = mirror-evaluate entry "down" (pos 5999000) refl refl

-- A sweep below the level and a reclaim of the confirming price fill the entry.
reclaimed : (watch entry (pos 6001000 ∷ pos 5999000 ∷ pos 6004000 ∷ [])).1 ≡ fill
unfolding watch evaluate exhaustion next is_buy lower String-discrete ◌+ℤ◌ ◌-ℤ◌
reclaimed = refl

abbrev none_found : ℤ → Option ℤ
none_found price = none

abbrev pub zones : ZoneDerivation
zones = record {
  buffer = pos 12000;
  min_pts = pos 8000;
  max_pts = pos 60000;
  max_stop = pos 72000;
  levels = record { nearest_support = none_found; nearest_resistance = none_found };
}

abbrev pub signal : LevelSignal
signal = record {
  direction = some "UP";
  nearest_support_price = number (pos 5980000);
  nearest_resistance_price = missing;
  nearest_support_pts = missing;
  nearest_resistance_pts = missing;
}

abbrev pub zone : Derived
zone = record {
  zone_price = pos 5980000;
  stop_price = pos 5968000;
  source = level_price;
  distance_pts = pos 20000;
}

derived : derive zones signal (pos 6000000) ≡ some zone
unfolding derive choose check_chosen check positive lower strip String-discrete ◌+ℤ◌ ◌-ℤ◌ abs
derived = refl

derive-IsSound_example : IsSound zones (signal_buy signal) (pos 6000000) zone
derive-IsSound_example = derive-IsSound zones signal (pos 6000000) derived
