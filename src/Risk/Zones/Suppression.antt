-- ===== src/Risk/Zones/Suppression.antt =====
-- zcastor/risk/zones.py: a spent higher timeframe blocks the timeframes that it suppresses.
use zcastor_agent.Base.{
  ℕ, ◌+◌, ◌≤◌, ◌<◌, String, str_mem, ◌≡◌, refl, ◌∙◌, ap, Bool, true, Option, none, some, List, [],
  ◌∷◌, ◌++◌, arith, Bool-cases, inl, inr, opt_or, is_some, length, keep_if, ltb, leb, length-append,
}
use zcastor_agent.Base.Dict.{lookup, lookup-insert, lookup-insert_self}
use zcastor_agent.Risk.Zones.{
  ZoneEntry, ZoneTracker, recent, live, spent, scan, check, check_found, blocked, above, zone_key,
  normalise_tf, record_entry, phase, exhausting,
}

keep_if_idem {ℓ} :
    {A : Type ℓ} (p : A → Bool) (xs : List A) → keep_if p (keep_if p xs) ≡ keep_if p xs
keep_if_idem p [] = refl
keep_if_idem p (x ∷ xs) = elim (Bool-cases (p x)) [
  | inl here ↦ rw here (rw here (ap (◌∷◌ x) (keep_if_idem p xs)))
  | inr gone ↦ rw gone (keep_if_idem p xs)
]

-- Dropping the old entries under one key changes no live entries, under any key.
live-live :
    (now : ℕ) (i j : String) (z : ZoneTracker) → (live now i (live now j z).1).0 ≡ (live now i z).0
unfolding live
live-live now i j z = ground (
  arith,
  lookup-insert j i (recent now z.window (opt_or (lookup j z.entries) [])) z.entries,
  keep_if_idem (λ (e : ZoneEntry). ltb now (e.ts + z.window)) (opt_or (lookup j z.entries) []),
)

-- The timeframe suppresses `tf` and has at least `block_n` live entries.
abbrev pub IsSpent : ℕ → (String → String) → String → ZoneTracker → String → Type 0
IsSpent now key tf z h =
    (str_mem tf (opt_or (lookup h z.suppresses) []) ≡ true)
    × (z.block_n ≤ length (live now (key h) z).0)

scan-IsSpent :
    (now : ℕ) (key : String → String) (tf h : String) (pre post : List String) (z : ZoneTracker)
    → IsSpent now key tf z h
    → is_some (scan now key tf (pre ++ h ∷ post) z).0 ≡ true
unfolding scan
scan-IsSpent now key tf h [] post z s = ground arith
scan-IsSpent now key tf h (g ∷ pre) post z s =
    let z' = (live now (key g) z).1 in
    let kept : (live now (key h) z').0 ≡ (live now (key h) z).0 = live-live now (key h) (key g) z in
    let same : z'.suppresses ≡ z.suppresses = unfold live in refl in
    let size : z'.block_n ≡ z.block_n = unfold live in refl in
    let skipped = scan-IsSpent now key tf h pre post z s in
    let clean = scan-IsSpent now key tf h pre post z' (rw same s.0, rw (size, kept) s.1) in
    elim (Bool-cases (str_mem tf (opt_or (lookup g z.suppresses) []))) [
      | inr out ↦ rw out skipped
      | inl counts ↦ rw counts (elim (Bool-cases (spent now z (live now (key g) z).0)) [
        | inl full ↦ rw full refl
        | inr free ↦ rw free clean
      ])
    ]

check_found-blocked :
    (o : Option ℕ) (now price : ℕ) (direction tf : String) (own : List ZoneEntry) (z : ZoneTracker)
    → is_some o ≡ true
    → (check_found o now price direction tf own z).0.0 ≡ blocked
unfolding check_found
check_found-blocked none now price direction tf own z h = cc
check_found-blocked (some n) now price direction tf own z h = refl

-- Where a timeframe stands above the signal's own in the hierarchy, suppresses it by the policy and
-- has as many live entries in the zone as block, the zone is blocked for the signal, whatever the
-- other timeframes hold.
pub check_suppressed :
    (now price : ℕ) (direction timeframe h : String) (pre post : List String) (z : ZoneTracker)
    → above (normalise_tf timeframe) z.hierarchy ≡ pre ++ h ∷ post
    → IsSpent now (zone_key z price direction) (normalise_tf timeframe) z h
    → (check now price direction timeframe z).0.0 ≡ blocked
unfolding check
check_suppressed now price direction timeframe h pre post z up s =
    let key = zone_key z price direction in
    let tf = normalise_tf timeframe in
    let z₁ = (live now (key tf) z).1 in
    let kept : (live now (key h) z₁).0 ≡ (live now (key h) z).0 =
      live-live now (key h) (key tf) z in
    let same : z₁.suppresses ≡ z.suppresses = unfold live in refl in
    let size : z₁.block_n ≡ z.block_n = unfold live in refl in
    let hit : is_some (scan now key tf (above tf z.hierarchy) z₁).0 ≡ true =
      rw up (scan-IsSpent now key tf h pre post z₁ (rw same s.0, rw (size, kept) s.1)) in
    check_found-blocked (scan now key tf (above tf z.hierarchy) z₁).0 now price direction tf
      (live now (key tf) z).0 (scan now key tf (above tf z.hierarchy) z₁).1 hit

keep_if-append {ℓ} :
    {A : Type ℓ} (p : A → Bool) (xs ys : List A)
    → keep_if p (xs ++ ys) ≡ keep_if p xs ++ keep_if p ys
keep_if-append p [] ys = refl
keep_if-append p (x ∷ xs) ys = elim (Bool-cases (p x)) [
  | inl here ↦ rw here (ap (◌∷◌ x) (keep_if-append p xs ys))
  | inr gone ↦ rw gone (keep_if-append p xs ys)
]

-- The live entries after one more is recorded at this moment.
live-record_entry :
    (now price bounce : ℕ) (direction timeframe : String) (z : ZoneTracker)
    → 0 < z.window
    → let key = zone_key z price direction timeframe in
      (live now key (record_entry now price direction timeframe bounce z)).0
      ≡ (live now key z).0 ++ record { ts = now; bounce_pts = bounce } ∷ []
unfolding record_entry live
live-record_entry now price bounce direction timeframe z w =
    let old = opt_or (lookup (zone_key z price direction timeframe) z.entries) [] in
    let keep = λ (e : ZoneEntry). ltb now (e.ts + z.window) in
    let now_live : ltb now (now + z.window) ≡ true = ground arith in
    rw lookup-insert_self (
      keep_if-append keep (keep_if keep old) (record { ts = now; bounce_pts = bounce } ∷ [])
      ∙ rw (keep_if_idem keep old, now_live) refl)

phase_full :
    (now price : ℕ) (direction timeframe : String) (z : ZoneTracker)
    → z.block_n ≤ length (live now (zone_key z price direction timeframe) z).0
    → (phase now price direction timeframe z).0 ≡ exhausting
unfolding phase
phase_full now price direction timeframe z h =
    let full : leb z.block_n (length (live now (zone_key z price direction timeframe) z).0) ≡ true =
      ground arith in
    rw full

-- After an entry is recorded, the zone holds one live entry more than before, and once that is as
-- many as block, the phase of the zone is exhausting; the window must be positive.
pub record_entry-live :
    (now price bounce : ℕ) (direction timeframe : String) (z : ZoneTracker)
    → 0 < z.window
    → let key = zone_key z price direction timeframe in
      let z' = record_entry now price direction timeframe bounce z in
      (length (live now key z').0 ≡ length (live now key z).0 + 1)
      × (z.block_n ≤ length (live now key z).0 + 1
          → (phase now price direction timeframe z').0 ≡ exhausting)
record_entry-live now price bounce direction timeframe z w =
    let key = zone_key z price direction timeframe in
    let z' = record_entry now price direction timeframe bounce z in
    let count : length (live now key z').0 ≡ length (live now key z).0 + 1 =
      rw (live-record_entry now price bounce direction timeframe z w) (length-append _ _) in
    let same_key : zone_key z' price direction timeframe ≡ key =
      unfold zone_key record_entry in refl in
    let same_n : z'.block_n ≡ z.block_n = unfold record_entry in refl in
    (count, λ full. phase_full now price direction timeframe z' (rw (same_key, count, same_n) full))
