-- ===== src/Market/Levels.antt =====
-- zcastor/market/levels.py: `HourlyLevels`. Times are in seconds, prices in one fixed unit; the lock
-- is left out.
pub mod Nearest
pub mod Swings
use zcastor_agent.Base.{
  ℕ, zero, suc, ◌+◌, ◌-◌, ◌*◌, ◌%◌, Bool, true, false, not, ◌&&◌, Option, none,
}
use zcastor_agent.Base.{some, List, [], ◌∷◌, map, length, take, drop, keep_if, leb, ltb, ◌==◌}
use zcastor_agent.Base.{if◌then◌else◌}
use zcastor_agent.Base.Int.{ℤ, pos, ◌-ℤ◌, leb_ℤ, ltb_ℤ}
use zcastor_agent.Base.Sort.{sort_by}

-- A bar, as `_to_hourly` reads it.
pub record Bar : Type 0 where
  pub time : ℕ
  pub high : ℤ
  pub low : ℤ

-- A bucket, with the hour that is its key.
pub record Hour : Type 0 where
  pub hour : ℕ
  pub h : ℤ
  pub l : ℤ

pub record HourlyLevels : Type 0 where
  pub lookback_hours : ℕ
  pub k : ℕ
  pub refresh_seconds : ℕ
  pub highs : List ℤ
  pub lows : List ℤ
  pub refreshed_at : ℕ

-- `max` and `min` of two: the first of two equals.
abbrev pub larger : ℤ → ℤ → ℤ
larger a b = if ltb_ℤ a b then b else a

abbrev pub smaller : ℤ → ℤ → ℤ
smaller a b = if ltb_ℤ b a then b else a

-- `max` and `min` of a list, `none` of an empty one.
abbrev pub max_from : ℤ → List ℤ → ℤ
max_from m [] = m
max_from m (x ∷ xs) = max_from (larger m x) xs

abbrev pub min_from : ℤ → List ℤ → ℤ
min_from m [] = m
min_from m (x ∷ xs) = min_from (smaller m x) xs

abbrev pub max_list : List ℤ → Option ℤ
max_list [] = none
max_list (x ∷ xs) = some (max_from x xs)

abbrev pub min_list : List ℤ → Option ℤ
min_list [] = none
min_list (x ∷ xs) = some (min_from x xs)

-- One bar into its bucket.
abbrev pub bucket : ℕ → Bar → List Hour → List Hour
bucket hour b [] = record { hour = hour; h = b.high; l = b.low } ∷ []
bucket hour b (x ∷ xs) =
    let rest = bucket hour b xs in
    if x.hour == hour
    then record x { h = larger x.h b.high; l = smaller x.l b.low } ∷ xs
    else x ∷ rest

-- The loop over the bars; `none` is a bar that cannot be read.
abbrev pub buckets : List (Option Bar) → List Hour → List Hour
buckets [] acc = acc
buckets (none ∷ bars) acc = buckets bars acc
buckets (some b ∷ bars) acc = buckets bars (bucket (b.time - b.time % 3600) b acc)

unfoldable pub to_hourly : List (Option Bar) → List Hour
to_hourly bars = sort_by (λ x y. leb x.hour y.hour) (buckets bars [])

abbrev pub same_price : ℤ → ℤ → Bool
same_price a b = leb_ℤ a b && leb_ℤ b a

-- `H[i]`, the head of the list from i on, kept in front of the others when it is the window's best.
abbrev pub extreme : Option ℤ → List ℤ → List ℤ → List ℤ
extreme none xs rest = rest
extreme (some m) [] rest = rest
extreme (some m) (x ∷ xs) rest = if same_price x m then x ∷ rest else rest

-- The loop over n positions: the window starts at the head of the list, k before the bar.
abbrev pub swings_from : (List ℤ → Option ℤ) → ℕ → ℕ → List ℤ → List ℤ
swings_from best k zero xs = []
swings_from best k (suc n) xs =
    extreme (best (take (2 * k + 1) xs)) (drop k xs) (swings_from best k n (drop 1 xs))

unfoldable pub find_swings : ℕ → List Hour → List ℤ × List ℤ
find_swings k hourly =
    let n = length hourly in
    if ltb n (2 * k + 1) then ([], []) else (
      swings_from max_list k (n - 2 * k) (map (λ b. b.h) hourly),
      swings_from min_list k (n - 2 * k) (map (λ b. b.l) hourly),
    )

-- What `refresh` does with the bars; none where the call raises.
abbrev pub take_bars : Option (List (Option Bar)) → ℕ → HourlyLevels → Bool × HourlyLevels
take_bars none now s = (false, s)
take_bars (some []) now s = (false, s)
take_bars (some (b ∷ bars)) now s =
    let swings = find_swings s.k (to_hourly (b ∷ bars)) in
    (true, record s { highs = swings.0; lows = swings.1; refreshed_at = now })

-- `rates` answers for a stretch of time.
abbrev pub Rates : Type 0
Rates = ℤ → ℤ → Option (List (Option Bar))

unfoldable pub refresh : Rates → Bool → ℕ → HourlyLevels → Bool × HourlyLevels
refresh rates force now s =
    if not force && ltb now (s.refreshed_at + s.refresh_seconds)
    then (false, s)
    else take_bars (rates (pos now -ℤ pos (s.lookback_hours * 3600)) (pos now)) now s

unfoldable pub nearest_support : Rates → ℕ → ℤ → HourlyLevels → Option ℤ × HourlyLevels
nearest_support rates now price s =
    let s' = (refresh rates false now s).1 in
    (max_list (keep_if (λ lv. ltb_ℤ lv price) s'.lows), s')

unfoldable pub nearest_resistance : Rates → ℕ → ℤ → HourlyLevels → Option ℤ × HourlyLevels
nearest_resistance rates now price s =
    let s' = (refresh rates false now s).1 in
    (min_list (keep_if (λ lv. ltb_ℤ price lv) s'.highs), s')

-- `stats`: resistance, support and the age in seconds.
unfoldable pub stats : ℕ → HourlyLevels → ℕ × ℕ × ℤ
stats now s = (length s.highs, length s.lows, pos now -ℤ pos s.refreshed_at)
