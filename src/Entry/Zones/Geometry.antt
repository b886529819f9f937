-- ===== src/Entry/Zones/Geometry.antt =====
-- zcastor/entry/zones.py: the geometry of a zone that is armed.
use zcastor_agent.Base.{Bool, true, false, Option, none, some, ◌≡◌, arith}
use zcastor_agent.Base.Int.{ℤ, ◌+ℤ◌, ◌-ℤ◌, ◌≤ℤ◌, ◌<ℤ◌, abs}
use zcastor_agent.Entry.Zones.{
  ZoneDerivation, LevelSignal, Derived, Source, check, check_chosen, derive, signal_buy,
}

-- The level stands on the side of the price where it belongs, at a distance within the bounds, and
-- the stop lies beyond it by the buffer, no further than the ceiling.
pub record IsSound (z : ZoneDerivation) (buy : Bool) (price : ℤ) (d : Derived) : Type 0 where
  pub below : buy ≡ true → d.zone_price <ℤ price
  pub above : buy ≡ false → price <ℤ d.zone_price
  pub near : z.min_pts ≤ℤ d.distance_pts
  pub far : d.distance_pts ≤ℤ z.max_pts
  pub stop_below : buy ≡ true → d.stop_price ≡ d.zone_price -ℤ z.buffer
  pub stop_above : buy ≡ false → d.stop_price ≡ d.zone_price +ℤ z.buffer
  pub stop_near : abs (d.zone_price -ℤ d.stop_price) ≤ℤ z.max_stop
  pub gap : d.distance_pts ≡ abs (price -ℤ d.zone_price)

check-IsSound :
    (z : ZoneDerivation) (buy : Bool) (price : ℤ) (c : ℤ × Source) {d : Derived}
    → check z buy price c ≡ some d
    → IsSound z buy price d
unfolding check
check-IsSound z true price c h = ground arith
check-IsSound z false price c h = ground arith

check_chosen-IsSound :
    (z : ZoneDerivation) (buy : Bool) (price : ℤ) (c : Option (ℤ × Source)) {d : Derived}
    → check_chosen z buy price c ≡ some d
    → IsSound z buy price d
unfolding check_chosen
check_chosen-IsSound z buy price none h = cc
check_chosen-IsSound z buy price (some c) h = check-IsSound z buy price c h

-- Whatever a signal and the hourly levels say, a zone that `derive` returns is sound.
pub derive-IsSound :
    (z : ZoneDerivation) (s : LevelSignal) (price : ℤ) {d : Derived}
    → derive z s price ≡ some d
    → IsSound z (signal_buy s) price d
unfolding derive
derive-IsSound z s price h = check_chosen-IsSound z (signal_buy s) price _ h
