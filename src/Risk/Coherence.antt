-- ===== src/Risk/Coherence.antt =====
-- zcastor/risk/coherence.py: the recent calls on each timeframe, and the recent outcomes.
pub mod Recent
use zcastor_agent.Base.{
  ℕ, ◌*◌, String, str_eq, Bool, true, false, not, Option, none, some, List, [], ◌∷◌, ◌++◌, keep_if,
  length, leb, ltb, ◌==◌, if◌then◌else◌, opt_or,
}
use zcastor_agent.Base.Dict.{Dict, lookup, insert}
use zcastor_agent.Base.Text.{lower}
use zcastor_agent.Gates.Context.{Fraction}

-- `SignalCoherence`, with its queues.
pub record SignalCoherence : Type 0 where
  pub window : ℕ
  pub recent : Dict (List String)

-- The last n elements.
abbrev pub last {ℓ} : {A : Type ℓ} → ℕ → List A → List A
last n [] = []
last n (x ∷ xs) = if leb (length (x ∷ xs)) n then x ∷ xs else last n xs

abbrev pub queue_of : String → SignalCoherence → List String
queue_of timeframe s = opt_or (lookup timeframe s.recent) []

-- `SignalCoherence.check`, without the text of the reason.
unfoldable pub check_signal : String → String → SignalCoherence → String
check_signal direction timeframe s =
    let opposed = keep_if (λ d. not (str_eq d (lower direction))) (last 3 (queue_of timeframe s)) in
    if leb 2 (length opposed) then "caution" else "ok"

-- `SignalCoherence.record`: the queue drops its oldest calls beyond the window.
unfoldable pub record_call : String → String → SignalCoherence → SignalCoherence
record_call direction timeframe s =
    let queue = last s.window (queue_of timeframe s ++ lower direction ∷ []) in
    record s { recent = insert timeframe queue s.recent }

-- `ModelCoherence`, without its file.
pub record ModelCoherence : Type 0 where
  pub window : ℕ
  pub min_wr : Fraction
  pub min_samples : ℕ

-- What `check` returns: the status, the win rate as a quotient, and the size of the sample.
pub record Standing : Type 0 where
  pub status : String
  pub wins : ℕ
  pub out_of : ℕ
  pub sample_n : ℕ

-- `history[-window:]`, which is all of it for a window of 0.
abbrev pub recent_of : ℕ → List Bool → List Bool
recent_of window history = if window == 0 then history else last window history

-- `ModelCoherence.check` on what `_load` gives: `none` is the division by no outcomes, where no
-- sample is asked for.
unfoldable pub check_model : ModelCoherence → List Bool → Option Standing
check_model m history =
    let n = length history in
    let recent = recent_of m.window history in
    let wins = length (keep_if (λ r. r) recent) in
    let total = length recent in
    if ltb n m.min_samples
    then some (record { status = "ok"; wins = 0; out_of = 1; sample_n = n })
    else if total == 0
    then none
    else some (record {
      status = if ltb (wins * m.min_wr.den) (m.min_wr.num * total) then "caution" else "ok";
      wins = wins;
      out_of = total;
      sample_n = total;
    })
