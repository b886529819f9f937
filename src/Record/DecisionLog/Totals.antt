-- ===== src/Record/DecisionLog/Totals.antt =====
-- zcastor/record/decision_log.py: the totals count the decisions.
use zcastor_agent.Base.{
  ℕ, ◌+◌, String, str_eq, ◌≡◌, refl, sym, ◌∙◌, ap, Bool, true, false, none, List, [], ◌∷◌, ◌++◌,
  map, keep_if, arith, Bool-cases, inl, inr, opt_or, if◌then◌else◌,
}
use zcastor_agent.Base.Dict.{Dict, lookup, IsDict, lookup-insert, insert-IsDict}
use zcastor_agent.Base.Sort.{insert_by, sort_by, Sorted, Sorted-sort_by}
use zcastor_agent.Base.TextOrder.{text_leb_total}
use zcastor_agent.Record.DecisionLog.{
  LogEntry, DecisionLog, BuiltLog, bump, count_all, by_key, by_count, refused, summary, reasons,
  build, bump_all, merge_into, merge_totals,
}

module _ {ℓ} {V : Type ℓ} (before : String × V → String × V → Bool) where
  lookup-insert_by :
      (k j : String) (v : V) (d : Dict V)
      → lookup k d ≡ none
      → lookup j (insert_by before (k, v) d) ≡ lookup j ((k, v) ∷ d)
  lookup-insert_by k j v [] h = refl
  lookup-insert_by k j v ((i, w) ∷ d) h =
      let rest = lookup-insert_by k j v d (ground arith) in
      elim (Bool-cases (before (k, v) (i, w))) [
        | inl first ↦ rw first refl
        | inr later ↦ rw later (ground (arith, rest))
      ]

  -- Sorting a dict leaves what its keys map to.
  pub lookup-sort_by :
      (j : String) (d : Dict V) → IsDict d → lookup j (sort_by before d) ≡ lookup j d
  lookup-sort_by j [] h = refl
  lookup-sort_by j ((k, v) ∷ d) h =
      lookup-insert_by k j v (sort_by before d) (lookup-sort_by k d h.1 ∙ h.0)
      ∙ ground (arith, lookup-sort_by j d h.1)

  IsDict-insert_by :
      (k : String) (v : V) (d : Dict V)
      → lookup k d ≡ none
      → IsDict d
      → IsDict (insert_by before (k, v) d)
  IsDict-insert_by k v [] h s = (refl, tt)
  IsDict-insert_by k v ((i, w) ∷ d) h s =
      let rest = IsDict-insert_by k v d (ground arith) s.1 in
      let apart = lookup-insert_by k i v d (ground arith) in
      elim (Bool-cases (before (k, v) (i, w))) [
        | inl first ↦ rw first (h, s)
        | inr later ↦ rw later (ground (arith, apart, s.0), rest)
      ]

  IsDict-sort_by : (d : Dict V) → IsDict d → IsDict (sort_by before d)
  IsDict-sort_by [] h = tt
  IsDict-sort_by ((k, v) ∷ d) h =
      IsDict-insert_by k v (sort_by before d) (lookup-sort_by k d h.1 ∙ h.0) (IsDict-sort_by d h.1)

-- What a dict of counts says of a key.
abbrev pub total : String → Dict ℕ → ℕ
total k d = opt_or (lookup k d) 0

-- How many entries have the key.
abbrev pub occurrences : (LogEntry → String) → String → List LogEntry → ℕ
occurrences key k [] = 0
occurrences key k (e ∷ es) = (if str_eq k (key e) then 1 else 0) + occurrences key k es

total-bump :
    (j k : String) (n : ℕ) (d : Dict ℕ)
    → total j (bump k n d) ≡ (if str_eq j k then n else 0) + total j d
total-bump j k n d = ground (arith, lookup-insert k j (opt_or (lookup k d) 0 + n) d)

total-count_all :
    (key : LogEntry → String) (k : String) (es : List LogEntry) (d : Dict ℕ)
    → total k (count_all key es d) ≡ occurrences key k es + total k d
total-count_all key k [] d = omega arith
total-count_all key k (e ∷ es) d =
    omega (arith, total-count_all key k es (bump (key e) 1 d), total-bump k (key e) 1 d)

count_all-IsDict :
    (key : LogEntry → String) (es : List LogEntry) (d : Dict ℕ)
    → IsDict d
    → IsDict (count_all key es d)
count_all-IsDict key [] d h = h
count_all-IsDict key (e ∷ es) d h =
    count_all-IsDict key es (bump (key e) 1 d) (insert-IsDict _ _ d h)

-- The counts, sorted in any way, are the numbers of occurrences.
counted :
    (before : String × ℕ → String × ℕ → Bool) (key : LogEntry → String) (k : String)
    (es : List LogEntry)
    → total k (sort_by before (count_all key es [])) ≡ occurrences key k es
counted before key k es =
    ap (λ o. opt_or o 0)
      (lookup-sort_by before k (count_all key es []) (count_all-IsDict key es [] tt))
    ∙ total-count_all key k es []
    ∙ omega arith

-- The tables that the log publishes count its entries: the total under an action is the number of
-- entries with it, the count of a reason is the number of refusals that give it, and the reasons
-- stand in the order of their counts, the most frequent first.
pub totals-build :
    (policy_version process action reason : String) (log : DecisionLog)
    → let b = build policy_version process log in
      (total action b.totals ≡ occurrences (λ e. e.action) action log.entries)
      × (total reason b.suppression_reasons
          ≡ occurrences (λ e. e.reason) reason (keep_if refused log.entries))
      × Sorted by_count b.suppression_reasons
unfolding build summary reasons
totals-build policy_version process action reason log = (
  counted by_key (λ e. e.action) action log.entries,
  counted by_count (λ e. e.reason) reason (keep_if refused log.entries),
  Sorted-sort_by by_count by_count_total
      (count_all (λ e. e.reason) (keep_if refused log.entries) []),
)
  where
    by_count_total : (x y : String × ℕ) → by_count x y ≡ false → by_count y x ≡ true
    by_count_total (j, m) (k, n) h = ground (arith, text_leb_total j k)

occurrences-append :
    (key : LogEntry → String) (k : String) (xs ys : List LogEntry)
    → occurrences key k (xs ++ ys) ≡ occurrences key k xs + occurrences key k ys
occurrences-append key k [] ys = omega arith
occurrences-append key k (x ∷ xs) ys = omega (arith, occurrences-append key k xs ys)

total-bump_all :
    (k : String) (d out : Dict ℕ) → IsDict d → total k (bump_all d out) ≡ total k d + total k out
total-bump_all k [] out h = omega arith
total-bump_all k ((j, n) ∷ d) out h =
    let rest = total-bump_all k d (bump j n out) h.1 in
    let here = total-bump k j n out in
    elim (Bool-cases (str_eq k j)) [
      | inl same ↦
          let gone : total k d ≡ 0 = ground (arith, h.0) in ground (arith, rest, here, gone)
      | inr other ↦ ground (arith, rest, here)
    ]

-- The entries of several logs, one after another.
abbrev pub all_entries : List DecisionLog → List LogEntry
all_entries [] = []
all_entries (l ∷ ls) = l.entries ++ all_entries ls

module _ (policy_version process : String) where
  total-merge_into :
      (k : String) (logs : List DecisionLog) (out : Dict ℕ)
      → total k (merge_into (map (build policy_version process) logs) out)
        ≡ occurrences (λ e. e.action) k (all_entries logs) + total k out
  unfolding build summary
  total-merge_into k [] out = omega arith
  total-merge_into k (l ∷ ls) out =
      let counts = count_all (λ (e : LogEntry). e.action) l.entries [] in
      let sorted = IsDict-sort_by by_key counts (count_all-IsDict _ l.entries [] tt) in
      omega (
        arith,
        total-merge_into k ls (bump_all (summary l) out),
        total-bump_all k (summary l) out sorted,
        counted by_key (λ e. e.action) k l.entries,
        occurrences-append (λ e. e.action) k l.entries (all_entries ls),
      )

  bump_all-IsDict : (d out : Dict ℕ) → IsDict out → IsDict (bump_all d out)
  bump_all-IsDict [] out h = h
  bump_all-IsDict ((j, n) ∷ d) out h = bump_all-IsDict d (bump j n out) (insert-IsDict j _ out h)

  merge_into-IsDict : (ls : List BuiltLog) (out : Dict ℕ) → IsDict out → IsDict (merge_into ls out)
  merge_into-IsDict [] out h = h
  merge_into-IsDict (l ∷ ls) out h =
      merge_into-IsDict ls (bump_all l.totals out) (bump_all-IsDict l.totals out h)

  -- Merging the totals of several published logs gives the totals of one log with all their entries.
  pub total-merge_totals :
      (action session_date agent : String) (logs : List DecisionLog)
      → let whole : DecisionLog = record {
        session_date = session_date;
        agent = agent;
        entries = all_entries logs;
      } in
        total action (merge_totals (map (build policy_version process) logs))
        ≡ total action (summary whole)
  unfolding merge_totals summary
  total-merge_totals action day agent logs =
      let built = map (build policy_version process) logs in
      ap (λ o. opt_or o 0)
        (lookup-sort_by by_key action (merge_into built []) (merge_into-IsDict built [] tt))
      ∙ total-merge_into action logs []
      ∙ omega arith
      ∙ sym (counted by_key (λ e. e.action) action (all_entries logs))
