-- ===== src/Anchor/Outbox/Compaction.antt =====
-- zcastor/anchor/outbox.py: the compaction, and what a compacted file no longer says.
use Prim.Native.Nat.{Ordering}
use Prim.Native.String.{◌++◌ as append, compare as compare_text}
use zcastor_agent.Base.{
  ℕ, String, ◌≡◌, refl, ◌∙◌, ap, List, [], ◌∷◌, ◌++◌, map, arith, Bool, true, false, leb,
  if◌then◌else◌,
}
use zcastor_agent.Base.Dict.{values}
use zcastor_agent.Anchor.Record.{PendingRecord}
use zcastor_agent.Anchor.Outbox.{
  Line, enqueued, sent, parked, Outbox, replay, replay_all, load, empty,
}

-- `sorted` on texts, by insertion.
abbrev pub insert_sorted : String → List String → List String
insert_sorted k [] = k ∷ []
insert_sorted k (x ∷ xs) =
    let rest = insert_sorted k xs in
    elim (compare_text k x) [ Ordering.gt ↦ x ∷ rest | _ ↦ k ∷ x ∷ xs ]

abbrev pub sorted : List String → List String
sorted [] = []
sorted (x ∷ xs) = insert_sorted x (sorted xs)

-- `compact`, whose rename is atomic: the file is the old one or the new one.
unfoldable pub compact : Outbox → Outbox
compact s = record s {
  log =
      map (λ e. enqueued e) (values s.pending)
      ++ (map (λ k. sent (append "compacted:" k) k "" 0 0) (sorted s.done)
          ++ map (λ e. parked e.id e.last_error 0) (values s.parked_entries));
  completed_lines = 0;
}

-- `maybe_compact`
unfoldable pub maybe_compact : ℕ → Outbox → Outbox × Bool
unfolding compact
maybe_compact threshold s =
    if leb threshold s.completed_lines then (compact s, true) else (s, false)

replay_all-append :
    (s : Outbox) (xs ys : List Line) → replay_all s (xs ++ ys) ≡ replay_all (replay_all s xs) ys
unfolding replay_all
replay_all-append s [] ys = refl
replay_all-append s (x ∷ xs) ys = replay_all-append (replay s x) xs ys

-- Nothing is queued or parked.
abbrev IsIdle : Outbox → Type 0
IsIdle s = (s.pending ≡ []) × (s.parked_entries ≡ [])

sent-IsIdle :
    (ks : List String) (s : Outbox)
    → IsIdle s
    → IsIdle (replay_all s (map (λ k. sent (append "compacted:" k) k "" 0 0) ks))
unfolding replay_all
sent-IsIdle [] s h = h
sent-IsIdle (k ∷ ks) s h = sent-IsIdle ks _ (unfold replay in ground arith)

parked-IsIdle :
    (es : List PendingRecord) (s : Outbox)
    → IsIdle s
    → IsIdle (replay_all s (map (λ e. parked e.id e.last_error 0) es))
unfolding replay_all
parked-IsIdle [] s h = h
parked-IsIdle (e ∷ es) s h = parked-IsIdle es _ (unfold replay in ground arith)

-- Compaction forgets the parked entries: when nothing is queued, loading the compacted file gives
-- an outbox with nothing parked, whatever was parked before.
pub compact_forgets_parked :
    (s : Outbox) → s.pending ≡ [] → (load s.max_attempts (compact s).log).parked_entries ≡ []
unfolding compact load
compact_forgets_parked s h =
    let sends = map (λ (k : String). sent (append "compacted:" k) k "" 0 0) (sorted s.done) in
    let parks = map (λ (e : PendingRecord). parked e.id e.last_error 0) (values s.parked_entries) in
    let mid = replay_all (empty s.max_attempts) sends in
    rw h (
      ap (λ (r : Outbox). r.parked_entries) (replay_all-append (empty s.max_attempts) sends parks)
      ∙ (parked-IsIdle (values s.parked_entries) mid
          (sent-IsIdle (sorted s.done) (empty s.max_attempts) (refl, refl))).1)
