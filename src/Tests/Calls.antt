-- ===== src/Tests/Calls.antt =====
-- Calls on two timeframes.
use zcastor_agent.Base.{arith, str_eq, not, [], ◌∷◌, keep_if, leb, length, if◌then◌else◌, List, ◌≡◌}
use zcastor_agent.Base.Text.{lower}
use zcastor_agent.Risk.Coherence.{last, check_signal}
use zcastor_agent.Risk.Coherence.Recent.{Call, record_calls, calls_on, check_signal-record_calls}

abbrev calls : List Call
calls = ("UP", "15m") ∷ ("DOWN", "1h") ∷ ("UP", "15m") ∷ ("DOWN", "15m") ∷ []

check_signal-record_calls_example :
    check_signal "DOWN" "15m" (record_calls calls (record { window = 10; recent = [] })) ≡ (
      let opposed = keep_if (λ d. not (str_eq d (lower "DOWN"))) (last 3 (calls_on "15m" calls)) in
      if leb 2 (length opposed) then "caution" else "ok")
check_signal-record_calls_example = check_signal-record_calls calls "DOWN" "15m" 10 (omega arith)
