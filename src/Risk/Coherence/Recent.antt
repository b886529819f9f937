-- ===== src/Risk/Coherence/Recent.antt =====
-- zcastor/risk/coherence.py: what a queue remembers of the calls on its timeframe.
use mathlib.Core.List.{append-nil}
use zcastor_agent.Base.{
  ℕ, String, str_eq, false, not, List, [], ◌∷◌, ◌++◌, keep_if, length, length-append, leb, ◌≤◌, ◌≡◌,
  refl, ap, ◌∙◌, sym, arith, inl, inr, Bool-cases, if◌then◌else◌,
}
use zcastor_agent.Base.Dict.{lookup-insert}
use zcastor_agent.Base.Text.{lower}
use zcastor_agent.Risk.Coherence.{SignalCoherence, last, queue_of, check_signal, record_call}

-- A call: its direction and its timeframe.
abbrev pub Call : Type 0
Call = String × String

unfoldable pub record_calls : List Call → SignalCoherence → SignalCoherence
record_calls [] s = s
record_calls ((d, tf) ∷ cs) s = record_calls cs (record_call d tf s)

-- The directions of the calls on a timeframe, oldest first.
abbrev pub calls_on : String → List Call → List String
calls_on timeframe [] = []
calls_on timeframe ((d, tf) ∷ cs) =
    if str_eq timeframe tf then lower d ∷ calls_on timeframe cs else calls_on timeframe cs

module _ {A : Type 0} where
  last-append : (n : ℕ) (xs ys : List A) → last n (last n xs ++ ys) ≡ last n (xs ++ ys)
  last-append n [] ys = refl
  last-append n (x ∷ xs) ys = elim (Bool-cases (leb (length (x ∷ xs)) n)) [
    | inl short ↦ rw short refl
    | inr long ↦
        let longer : leb (length (x ∷ (xs ++ ys))) n ≡ false =
          ground (arith, length-append xs ys, long) in
        rw (long, longer) (last-append n xs ys)
  ]

  last-last : (m n : ℕ) (xs : List A) → m ≤ n → last m (last n xs) ≡ last m xs
  last-last m n [] h = refl
  last-last m n (x ∷ xs) h = elim (Bool-cases (leb (length (x ∷ xs)) n)) [
    | inl short ↦ rw short refl
    | inr long ↦
        let longer : leb (length (x ∷ xs)) m ≡ false = ground (arith, long, h) in
        rw (long, longer) (last-last m n xs h)
  ]

append-cons : {A : Type 0} (xs ys : List A) (x : A) → (xs ++ x ∷ []) ++ ys ≡ xs ++ x ∷ ys
append-cons [] ys x = refl
append-cons (z ∷ xs) ys x = ap (◌∷◌ z) (append-cons xs ys x)

queue_of-record_call :
    (d tf timeframe : String) (s : SignalCoherence)
    → queue_of timeframe (record_call d tf s) ≡ (
        if str_eq timeframe tf
        then last s.window (queue_of timeframe s ++ lower d ∷ [])
        else queue_of timeframe s)
unfolding record_call
queue_of-record_call d tf timeframe s =
    ground
      (arith, lookup-insert tf timeframe (last s.window (queue_of tf s ++ lower d ∷ [])) s.recent)

queue_of-record_calls :
    (cs : List Call) (timeframe : String) (s : SignalCoherence)
    → last s.window (queue_of timeframe (record_calls cs s))
      ≡ last s.window (queue_of timeframe s ++ calls_on timeframe cs)
unfolding record_calls record_call
queue_of-record_calls [] timeframe s = ap (last s.window) (sym (append-nil (queue_of timeframe s)))
queue_of-record_calls ((d, tf) ∷ cs) timeframe s =
    queue_of-record_calls cs timeframe (record_call d tf s)
    ∙ elim (Bool-cases (str_eq timeframe tf)) [
      | inl same ↦
          rw (queue_of-record_call d tf timeframe s, same)
            (last-append s.window (queue_of timeframe s ++ lower d ∷ []) (calls_on timeframe cs)
              ∙ ap (last s.window)
                  (append-cons (queue_of timeframe s) (calls_on timeframe cs) (lower d)))
      | inr other ↦ rw (queue_of-record_call d tf timeframe s, other) refl
    ]

-- With a window of at least 3, a direction is cautioned on a timeframe exactly when two of the last
-- three calls on it say another one, whatever was called on the others.
pub check_signal-record_calls :
    (cs : List Call) (direction timeframe : String) (window : ℕ)
    → 3 ≤ window
    → check_signal direction timeframe (record_calls cs (record { window = window; recent = [] }))
      ≡ (let opposed =
            keep_if (λ d. not (str_eq d (lower direction))) (last 3 (calls_on timeframe cs)) in
          if leb 2 (length opposed) then "caution" else "ok")
unfolding check_signal
check_signal-record_calls cs direction timeframe window h =
    let s : SignalCoherence = record { window = window; recent = [] } in
    let seen : last 3 (queue_of timeframe (record_calls cs s)) ≡ last 3 (calls_on timeframe cs) =
      sym (last-last 3 window (queue_of timeframe (record_calls cs s)) h)
      ∙ ap (last 3) (queue_of-record_calls cs timeframe s)
      ∙ last-last 3 window (calls_on timeframe cs) h in
    ap
      (λ q.
        if leb 2 (length (keep_if (λ d. not (str_eq d (lower direction))) q))
        then "caution"
        else "ok")
      seen
