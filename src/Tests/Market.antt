-- ===== src/Tests/Market.antt =====
-- Zone memory and the classification of trades on small data.
use zcastor_agent.Base.{ℕ, String-discrete, ◌≡◌, refl, true, [], ◌∷◌, arith}
use zcastor_agent.Base.Int.{pos, ◌+ℤ◌, ◌-ℤ◌}
use zcastor_agent.Base.Text.{lower, strip, show}
use zcastor_agent.Risk.Zones.{ZoneEntry, ZoneTracker, check, blocked, live, zone_key, normalise_tf}
use zcastor_agent.Risk.Zones.Suppression.{check_suppressed}
use zcastor_agent.Resolve.Classify.{Bar, stopped, hits_stop, hits_target, judge_bars, first_hit}
use zcastor_agent.Resolve.Classify.Hits.{Explains, outcome-Explains}

abbrev at : ℕ → ZoneEntry
at ts = record { ts = ts; bounce_pts = 0 }

-- Two entries on 1h, which suppresses 5m.
abbrev tracker : ZoneTracker
tracker = record {
  size = 100;
  window = 7200000;
  fast_window = 1200000;
  caution_n = 2;
  block_n = 2;
  compress_n = 2;
  weak_bounce = 3000;
  hierarchy = "5m" ∷ "15m" ∷ "1h" ∷ [];
  suppresses = ("1h", "5m" ∷ "15m" ∷ []) ∷ [];
  entries = ("60000_up_1h", at 1000 ∷ at 2000 ∷ []) ∷ [];
}

check_suppressed_example : (check 5000 6000050 "up" "5" tracker).0.0 ≡ blocked
unfolding normalise_tf zone_key live lower strip show String-discrete
check_suppressed_example =
    check_suppressed 5000 6000050 "up" "5" "1h" ("15m" ∷ []) [] tracker refl (refl, omega arith)

abbrev quiet : Bar
quiet = record { high = pos 6001000; low = pos 5999000; close = pos 6000500 }

-- A bar that touches both the stop and the target.
abbrev wild : Bar
wild = record { high = pos 6020000; low = pos 5980000; close = pos 6010000 }

outcome-Explains_example :
    Explains
      (hits_stop true (pos 6000000) (pos 10000) (pos 0))
      (hits_target true (pos 6000000) (pos 15000) (pos 0))
      (quiet ∷ wild ∷ [])
      (judge_bars true (pos 6000000) (pos 10000) (pos 15000) (pos 0) quiet (wild ∷ [])).outcome
unfolding ◌+ℤ◌
outcome-Explains_example =
    outcome-Explains true (pos 6000000) (pos 10000) (pos 15000) (pos 0) quiet (wild ∷ [])
      (omega arith) (omega arith)

-- Where one bar touches both, the trade is scored as stopped.
ambiguous_loses :
    (judge_bars true (pos 6000000) (pos 10000) (pos 15000) (pos 0) quiet (wild ∷ [])).outcome
    ≡ stopped
unfolding judge_bars first_hit hits_stop hits_target ◌+ℤ◌ ◌-ℤ◌
ambiguous_loses = refl
