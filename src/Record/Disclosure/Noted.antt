-- ===== src/Record/Disclosure/Noted.antt =====
-- zcastor/record/disclosure.py: who has been shown what.
use mathlib.Core.List.{append-nil}
use zcastor_agent.Base.{String, str_eq, Bool, true, false, Option, none, some, List, []}
use zcastor_agent.Base.{◌∷◌, ◌++◌, map, length, keep_if, ◌≡◌, refl, ap, ◌∙◌}
use zcastor_agent.Base.{if◌then◌else◌, Bool-cases, inl, inr}
use zcastor_agent.Record.Disclosure.{Disclosure, LogEntry, LogLine, append_entry, entries}
use zcastor_agent.Record.Disclosure.{for_recipient, build, manifest_of}

entries-append :
    (e : LogEntry) (lines : List LogLine) → entries (append_entry e lines) ≡ entries lines ++ e ∷ []
unfolding entries append_entry
entries-append e [] = refl
entries-append e (none ∷ lines) = entries-append e lines
entries-append e (some x ∷ lines) = ap (λ xs. x ∷ xs) (entries-append e lines)

keep_if-append :
    (p : LogEntry → Bool) (xs ys : List LogEntry)
    → keep_if p (xs ++ ys) ≡ keep_if p xs ++ keep_if p ys
keep_if-append p [] ys = refl
keep_if-append p (x ∷ xs) ys = elim (Bool-cases (p x)) [
  | inl t ↦ rw t (ap (λ zs. x ∷ zs) (keep_if-append p xs ys))
  | inr f ↦ rw f (keep_if-append p xs ys)
]

-- What a recipient has been shown after one more entry.
abbrev pub shown_after : LogEntry → String → List LogEntry → List LogEntry
shown_after e recipient before = if str_eq e.recipient recipient then before ++ e ∷ [] else before

last_one :
    (b : Bool) (xs : List LogEntry) (e : LogEntry)
    → xs ++ (if b then e ∷ [] else []) ≡ (if b then xs ++ e ∷ [] else xs)
last_one true xs e = refl
last_one false xs e = append-nil xs

for_recipient-append :
    (e : LogEntry) (r : String) (lines : List LogLine)
    → for_recipient r (append_entry e lines) ≡ shown_after e r (for_recipient r lines)
unfolding for_recipient
for_recipient-append e r lines =
    ap (keep_if (λ x. str_eq x.recipient r)) (entries-append e lines)
    ∙ keep_if-append (λ x. str_eq x.recipient r) (entries lines) (e ∷ [])
    ∙ last_one (str_eq e.recipient r) (keep_if (λ x. str_eq x.recipient r) (entries lines)) e

abbrev pub shown_in : String → Option (List LogLine) → List LogEntry
shown_in r none = []
shown_in r (some lines) = for_recipient r lines

-- A bundle adds one entry for its recipient, with the checksums of its manifest in their order, and
-- none for anyone else.
pub build-for_recipient :
    (sha : String → String) (d : Disclosure) (recipient agreement now r : String) (ps : List String)
    (lines : List LogLine)
    → d.log ≡ some lines
    → let (g, m, d') = build sha d recipient ps agreement now in
      shown_in r d'.log
      ≡ shown_after
          (record {
            recipient = recipient;
            disclosed_at = now;
            agreement = agreement;
            checksums = map (λ x. x.checksum) m.included;
            count = length m.included;
          })
          r
          (for_recipient r lines)
unfolding build manifest_of
build-for_recipient sha d recipient agreement now r ps lines h =
    rw h (for_recipient-append _ r lines)
