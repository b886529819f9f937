-- ===== src/Entry/Zones.antt =====
-- zcastor/entry/zones.py: from a signal to the level and the stop of a zone entry.
pub mod Geometry
use zcastor_agent.Base.{
  String, Bool, true, false, not, ◌&&◌, ◌||◌, Option, none, some, if◌then◌else◌, opt_or, str_mem,
}
use zcastor_agent.Base.Int.{ℤ, pos, ◌+ℤ◌, ◌-ℤ◌, ltb_ℤ, leb_ℤ, abs}
use zcastor_agent.Base.Text.{lower, strip}
use zcastor_agent.Entry.Pending.{buy_words, points}

-- A number in a payload: missing, an empty text, something that `float` refuses, or a number.
pub data Raw : Type 0 where
  missing blank unreadable : Raw
  number : ℤ → Raw

-- The fields of a signal that `derive` reads.
pub record LevelSignal : Type 0 where
  pub direction : Option String
  pub nearest_support_price : Raw
  pub nearest_resistance_price : Raw
  pub nearest_support_pts : Raw
  pub nearest_resistance_pts : Raw

-- `ZoneDerivation`: the block of the policy, and the hourly levels, whose lookups are `none` where
-- there are no levels or the lookup raises.
pub record ZonePolicy : Type 0 where
  pub stop_buffer_pts : Option ℤ
  pub zone_min_pts : Option ℤ
  pub zone_max_pts : Option ℤ
  pub max_stop_pts : Option ℤ

pub record Levels : Type 0 where
  pub nearest_support : ℤ → Option ℤ
  pub nearest_resistance : ℤ → Option ℤ

pub record ZoneDerivation : Type 0 where
  pub buffer : ℤ
  pub min_pts : ℤ
  pub max_pts : ℤ
  pub max_stop : ℤ
  pub levels : Levels

-- `ZoneDerivation.__init__`
unfoldable pub zone_derivation : ZonePolicy → Levels → ZoneDerivation
zone_derivation cfg levels = record {
  buffer = opt_or cfg.stop_buffer_pts (points 120);
  min_pts = opt_or cfg.zone_min_pts (points 80);
  max_pts = opt_or cfg.zone_max_pts (points 600);
  max_stop = opt_or cfg.max_stop_pts (points 720);
  levels = levels;
}

-- `_number`
unfoldable pub positive : Raw → Option ℤ
positive missing = none
positive blank = none
positive unreadable = none
positive (number v) = if ltb_ℤ (pos 0) v then some v else none

pub data Source : Type 0 where
  level_price level_pts hourly_swing : Source

-- The level and where it comes from: the price, else the distance, else the hourly swing.
unfoldable pub choose : Option ℤ → Option ℤ → Option ℤ → Bool → ℤ → Option (ℤ × Source)
choose (some zone) distance swing buy price = some (zone, level_price)
choose none (some d) swing buy price = some (if buy then price -ℤ d else price +ℤ d, level_pts)
choose none none none buy price = none
choose none none (some zone) buy price = some (zone, hourly_swing)

-- What `derive` returns.
pub record Derived : Type 0 where
  pub zone_price : ℤ
  pub stop_price : ℤ
  pub source : Source
  pub distance_pts : ℤ

-- The checks of `derive` on a level: neither too close nor too far, on the side of the price where
-- such a level belongs, and with a stop that is not too wide.
unfoldable pub check : ZoneDerivation → Bool → ℤ → ℤ × Source → Option Derived
check z buy price (zone, source) =
    let gap = abs (price -ℤ zone) in
    let stop = if buy then zone -ℤ z.buffer else zone +ℤ z.buffer in
    if ltb_ℤ gap z.min_pts
    then none
    else if ltb_ℤ z.max_pts gap
    then none
    else if buy && leb_ℤ price zone
    then none
    else if not buy && leb_ℤ zone price
    then none
    else if ltb_ℤ z.max_stop (abs (zone -ℤ stop))
    then none
    else some (record { zone_price = zone; stop_price = stop; source = source; distance_pts = gap })

abbrev pub signal_buy : LevelSignal → Bool
signal_buy s = str_mem (lower (strip (opt_or s.direction ""))) buy_words

unfoldable pub check_chosen : ZoneDerivation → Bool → ℤ → Option (ℤ × Source) → Option Derived
unfolding check
check_chosen z buy price none = none
check_chosen z buy price (some zone) = check z buy price zone

-- `derive`. The distance is left as it is, where the source rounds it for its report.
unfoldable pub derive : ZoneDerivation → LevelSignal → ℤ → Option Derived
unfolding choose check_chosen positive
derive z s price =
    let buy = signal_buy s in
    let absolute = positive (if buy then s.nearest_support_price else s.nearest_resistance_price) in
    let distance = positive (if buy then s.nearest_support_pts else s.nearest_resistance_pts) in
    let swing = if buy then z.levels.nearest_support price else z.levels.nearest_resistance price in
    check_chosen z buy price (choose absolute distance swing buy price)
