-- ===== src/Risk/Zones.antt =====
-- zcastor/risk/zones.py: zone memory. Prices are natural numbers in hundredths of a point, times in
-- milliseconds; a call reads the clock once. The reasons, texts for the record, are left out.
pub mod Suppression
pub mod Reset
use Prim.Native.String.{◌++◌ as append}
use zcastor_agent.Base.{
  ℕ, ◌+◌, ◌*◌, ◌/◌, String, str_eq, str_mem, Bool, true, false, not, ◌&&◌, ◌||◌, Option, none, some,
  List, [], ◌∷◌, ◌++◌, map, length, keep_if, leb, ltb, ◌==◌, if◌then◌else◌, opt_or,
}
use zcastor_agent.Base.Dict.{Dict, lookup, insert}
use zcastor_agent.Base.Text.{lower, strip, show}

-- `_TF_ALIASES`
abbrev pub tf_aliases : Dict String
tf_aliases =
    ("5", "5m")
    ∷ ("5m", "5m")
    ∷ ("15", "15m")
    ∷ ("15m", "15m")
    ∷ ("30", "30m")
    ∷ ("30m", "30m")
    ∷ ("1h", "1h")
    ∷ ("60", "1h")
    ∷ ("60m", "1h")
    ∷ ("4h", "4h")
    ∷ ("240", "4h")
    ∷ ("240m", "4h")
    ∷ []

-- `normalise_tf`
unfoldable pub normalise_tf : String → String
normalise_tf tf = let key = lower (strip tf) in opt_or (lookup key tf_aliases) key

-- An entry of `_entries`.
pub record ZoneEntry : Type 0 where
  pub ts : ℕ
  pub bounce_pts : ℕ

-- `ZoneTracker`: the `zones` block of the policy, and the entries under their keys.
pub record ZoneTracker : Type 0 where
  pub size : ℕ
  pub window : ℕ
  pub fast_window : ℕ
  pub caution_n : ℕ
  pub block_n : ℕ
  pub compress_n : ℕ
  pub weak_bounce : ℕ
  pub hierarchy : List String
  pub suppresses : Dict (List String)
  pub entries : Dict (List ZoneEntry)

-- `_key`, whose bucket is the price rounded down to a multiple of the size.
unfoldable pub zone_key : ZoneTracker → ℕ → String → String → String
zone_key z price direction tf =
    append (show (price / (z.size * 100) * z.size))
      (append "_" (append (lower direction) (append "_" (normalise_tf tf))))

abbrev pub recent : ℕ → ℕ → List ZoneEntry → List ZoneEntry
recent now window = keep_if (λ e. ltb now (e.ts + window))

-- `_live`: the entries under the key within the window; the others are dropped.
unfoldable pub live : ℕ → String → ZoneTracker → List ZoneEntry × ZoneTracker
live now key z =
    let es = recent now z.window (opt_or (lookup key z.entries) []) in
    (es, record z { entries = insert key es z.entries })

-- `_compressed`
abbrev pub compressed : ℕ → ZoneTracker → List ZoneEntry → Bool
compressed now z es = leb z.compress_n (length (recent now z.fast_window es))

abbrev pub spent : ℕ → ZoneTracker → List ZoneEntry → Bool
spent now z es = leb z.block_n (length es) || compressed now z es

-- The bounces that count, and their sum.
abbrev pub bounces : List ZoneEntry → List ZoneEntry
bounces = keep_if (λ e. ltb 0 e.bounce_pts)

abbrev pub sum_bounces : List ZoneEntry → ℕ
sum_bounces [] = 0
sum_bounces (e ∷ es) = e.bounce_pts + sum_bounces es

-- `0 < _avg_bounce(es) < weak_bounce`, multiplied out.
abbrev pub weak : ZoneTracker → List ZoneEntry → Bool
weak z es =
    ltb 0 (length (bounces es))
    && ltb (sum_bounces (bounces es)) (z.weak_bounce * length (bounces es))

pub data ZoneStatus : Type 0 where
  clear caution blocked elevated : ZoneStatus

-- The timeframes above one in the hierarchy, if it is there.
abbrev pub above : String → List String → List String
above tf [] = []
above tf (h ∷ hs) = let rest = above tf hs in if str_eq h tf then hs else rest

-- The loop over the higher timeframes: the number of live entries of the first that is spent.
unfoldable pub scan :
    ℕ → (String → String) → String → List String → ZoneTracker → Option ℕ × ZoneTracker
scan now key tf [] z = (none, z)
scan now key tf (h ∷ hs) z =
    let (es, z') = live now (key h) z in
    let skipped = scan now key tf hs z in
    let clean = scan now key tf hs z' in
    if not (str_mem tf (opt_or (lookup h z.suppresses) []))
    then skipped
    else if spent now z es
    then (some (length es), z')
    else clean

abbrev pub opposite : String → String
opposite direction = if str_eq (lower direction) "up" then "down" else "up"

-- `check` below the loop over the higher timeframes.
unfoldable pub check_own :
    ℕ → ℕ → String → String → List ZoneEntry → ZoneTracker → (ZoneStatus × ℕ) × ZoneTracker
check_own now price direction tf own z =
    if spent now z own
    then ((blocked, length own), z)
    else if leb z.caution_n (length own)
    then ((caution, length own), z)
    else if weak z own
    then ((caution, length own), z)
    else let (other, z') = live now (zone_key z price (opposite direction) tf) z in
      if spent now z other then ((elevated, length own), z') else ((clear, length own), z')

unfoldable pub check_found :
    Option ℕ
    → ℕ
    → ℕ
    → String
    → String
    → List ZoneEntry
    → ZoneTracker
    → (ZoneStatus × ℕ) × ZoneTracker
unfolding check_own
check_found (some n) now price direction tf own z = ((blocked, n), z)
check_found none now price direction tf own z = check_own now price direction tf own z

-- `check`
unfoldable pub check : ℕ → ℕ → String → String → ZoneTracker → (ZoneStatus × ℕ) × ZoneTracker
unfolding check_found scan live
check now price direction timeframe z =
    let tf = normalise_tf timeframe in
    let (own, z₁) = live now (zone_key z price direction tf) z in
    let (found, z₂) = scan now (zone_key z price direction) tf (above tf z.hierarchy) z₁ in
    check_found found now price direction tf own z₂

-- `record_entry`
unfoldable pub record_entry : ℕ → ℕ → String → String → ℕ → ZoneTracker → ZoneTracker
record_entry now price direction timeframe bounce z =
    let key = zone_key z price direction timeframe in
    let es = recent now z.window (opt_or (lookup key z.entries) []) in
    record z {
      entries = insert key (es ++ record { ts = now; bounce_pts = bounce } ∷ []) z.entries;
    }

-- The answers of `phase`
pub data Phase : Type 0 where
  fresh active exhausting : Phase

-- `phase`
unfoldable pub phase : ℕ → ℕ → String → String → ZoneTracker → Phase × ZoneTracker
unfolding live
phase now price direction timeframe z =
    let (es, z') = live now (zone_key z price direction timeframe) z in
    if leb z.block_n (length es)
    then (exhausting, z')
    else if leb z.caution_n (length es)
    then (active, z')
    else (fresh, z')
