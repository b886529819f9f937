-- ===== src/Tests/Levels.antt =====
-- Levels and session opens on small data.
use zcastor_agent.Base.{
  ap, ◌*◌, ℕ, ◌+◌, String-discrete, ◌≡◌, refl, none, some, Option, List, [], ◌∷◌,
}
use zcastor_agent.Base.Int.{pos}
use zcastor_agent.Base.Text.{strip}
use zcastor_agent.Market.Levels.{Hour, Bar, find_swings, to_hourly}
use zcastor_agent.Market.Session.{Closes, open_price, current_session}
use zcastor_agent.Market.Session.Cached.{Call, after, open_price-later}

abbrev hour_of : ℕ → ℕ → ℕ → Hour
hour_of n h l = record { hour = n * 3600; h = pos h; l = pos l }

abbrev hours : List Hour
hours = hour_of 0 10 5 ∷ hour_of 1 30 7 ∷ hour_of 2 20 3 ∷ hour_of 3 25 9 ∷ hour_of 4 15 8 ∷ []

swings_of_hours : find_swings 1 hours ≡ (pos 30 ∷ pos 25 ∷ [], pos 3 ∷ [])
unfolding find_swings
swings_of_hours = refl

-- Two minutes of one hour and one of the next, in reverse.
abbrev minutes : List (Option Bar)
minutes =
    some (record { time = 3660; high = pos 9; low = pos 8 })
    ∷ none
    ∷ some (record { time = 60; high = pos 7; low = pos 4 })
    ∷ some (record { time = 0; high = pos 6; low = pos 3 })
    ∷ []

hours_of_minutes : to_hourly minutes ≡ hour_of 0 7 3 ∷ hour_of 1 9 8 ∷ []
unfolding to_hourly
hours_of_minutes = refl

-- The feed's open is 60000 at first, and later another.
abbrev first_feed : Closes
first_feed a b = some (some (pos 60000) ∷ [])

abbrev later_feed : Closes
later_feed a b = some (some (pos 61000) ∷ [])

-- 9:00 and 18:00 of one day.
abbrev morning : ℕ
morning = 1000 * 86400000 + 32400000

abbrev evening : ℕ
evening = 1000 * 86400000 + 64800000

abbrev asked : List Call
asked =
    record { rates = later_feed; now = evening; session = "NY PM" }
    ∷ record { rates = later_feed; now = evening; session = "London" }
    ∷ []

open_price-later_example :
    (open_price later_feed evening "London"
      (after asked (open_price first_feed morning "London" []).1)).0
    ≡ pos 60000
unfolding open_price String-discrete strip
open_price-later_example =
    ap (λ r. r.0)
      (open_price-later first_feed later_feed morning evening "London" [] asked refl refl)

evening_session : current_session evening ≡ "NY PM"
unfolding current_session
evening_session = refl
