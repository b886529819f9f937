-- ===== src/Market/Session/Current.antt =====
-- zcastor/market/session.py: which session `current_session` names.
use zcastor_agent.Base.{ℕ, String, leb, ◌≡◌, if◌then◌else◌, arith}
use zcastor_agent.Market.Session.{current_session, minutes_of, latest, session_start_utc_min}

-- The starts from the latest on: the first that is not after the minute.
abbrev pub by_start : ℕ → String
by_start m =
    if leb 1320 m
    then "Overnight"
    else if leb 1200 m
    then "NY Close"
    else if leb 960 m
    then "NY PM"
    else if leb 810 m
    then "NY Open"
    else if leb 480 m
    then "London"
    else if leb 450 m
    then "Pre-London"
    else "Asian"

latest-by_start : (m : ℕ) → latest m session_start_utc_min "Overnight" 0 ≡ by_start m
latest-by_start m = ground arith

-- The scan for the best start picks the session whose start is the last one passed, and the Asian
-- session from midnight on.
pub current_session-by_start : (now : ℕ) → current_session now ≡ by_start (minutes_of now)
unfolding current_session
current_session-by_start now = latest-by_start (minutes_of now)
