-- ===== src/Entry/Watcher/Hooks.antt =====
-- zcastor/entry/watcher.py: what `cancel` and `_fire` tell the hooks of the entry that they end.
use Prim.Native.String.{◌++◌ as append}
use text.Mathlib.Text.{starts_with}
use text.Mathlib.TextPositions.{starts_with-append}
use zcastor_agent.Base.{
  ◌+◌, String, str_eq, ◌≡◌, refl, sym, ap, ◌∙◌, Bool, true, false, Option, none, some, List, ◌∷◌,
  is_some, arith, Bool-cases, inl, inr, if◌then◌else◌,
}
use zcastor_agent.Base.Dict.{lookup}
use zcastor_agent.Base.Int.{ℤ}
use zcastor_agent.Entry.Pending.{PendingEntry}
use zcastor_agent.Entry.Watcher.{
  Desk, EntryWatcher, OrderAnswer, placed, refused, Counts, close, cancel, viable, fire_answer,
  fire_viable, fire,
}
use zcastor_agent.Entry.Watcher.Filed.{IsFiled}
use zcastor_agent.Entry.Watcher.Accounts.{
  Ending, filled_event, closed_event, reporting, closed, Tells, signal_id-lookup,
}

-- A reason that says more than one word is not the word "expired".
other_reason :
    (start s : String)
    → starts_with "expired" start ≡ false
    → str_eq (append start s) "expired" ≡ false
other_reason start s never = elim (Bool-cases (str_eq (append start s) "expired")) [
  | inr other ↦ other
  | inl same ↦
      let q : append start s ≡ "expired" = ground arith in
      let begins = ap (λ x. starts_with x start) (sym q) ∙ starts_with-append start s in cc
]

-- What the caller of a fire counts.
abbrev pub after_fire : Bool → Counts → Counts
after_fire done t =
    if done then record t { filled = t.filled + 1 } else record t { cancelled = t.cancelled + 1 }

module _ {W : Type 0} (b : Desk W) where
  close-Tells :
      (o : Option PendingEntry) (id reason : String) (wt : EntryWatcher) (w : W × List Ending)
      (t : Counts)
      → lookup id wt.pending ≡ o
      → IsFiled wt.pending
      → is_some o ≡ true
      → Tells id w.1 (close (reporting b) o id reason wt w).2.1 t (closed reason t)
  unfolding close reporting
  close-Tells none id reason wt w t h f some_one = cc
  close-Tells (some e) id reason wt w t h f some_one =
      (closed_event e reason, refl, signal_id-lookup id wt.pending e f h, refl)

  pub cancel-Tells :
      (id reason : String) (wt : EntryWatcher) (w : W × List Ending) (t : Counts)
      → IsFiled wt.pending
      → is_some (lookup id wt.pending) ≡ true
      → Tells id w.1 (cancel (reporting b) id reason wt w).2.1 t (closed reason t)
  unfolding cancel
  cancel-Tells id reason wt w t f h = close-Tells (lookup id wt.pending) id reason wt w t refl f h

  viable-told :
      (e : PendingEntry) (wt : EntryWatcher) (w : W × List Ending)
      → (viable (reporting b) e wt w).1.1 ≡ w.1
  unfolding viable reporting
  viable-told e wt w = ground arith

  -- A fire that is not done closes the entry for a reason that is not "expired".
  cancel-Tells_fire :
      (start s : String) (e : PendingEntry) (wt : EntryWatcher) (w : W × List Ending) (t : Counts)
      → starts_with "expired" start ≡ false
      → IsFiled wt.pending
      → is_some (lookup e.signal_id wt.pending) ≡ true
      → Tells e.signal_id w.1
          (cancel (reporting b) e.signal_id (append start s) wt w).2.1
          t
          (after_fire false t)
  cancel-Tells_fire start s e wt w t never f h =
      let r = cancel-Tells e.signal_id (append start s) wt w t f h in
      (r.0, r.1, r.2, rw (other_reason start s never) refl ∙ r.3)

  fire_answer-Tells :
      (a : OrderAnswer) (e : PendingEntry) (wt : EntryWatcher) (w : W × List Ending) (t : Counts)
      → IsFiled wt.pending
      → is_some (lookup e.signal_id wt.pending) ≡ true
      → let (done, wt', w') = fire_answer (reporting b) a e wt w in
        Tells e.signal_id w.1 w'.1 t (after_fire done t)
  unfolding fire_answer reporting
  fire_answer-Tells (placed r) e wt w t f h = (filled_event e, refl, refl, refl)
  fire_answer-Tells (refused error) e wt w t f h =
      cancel-Tells_fire "order_failed:" error e wt w t refl f h

  fire_viable-Tells :
      (o : Option String) (e : PendingEntry) (price : ℤ) (wt : EntryWatcher) (w : W × List Ending)
      (t : Counts)
      → IsFiled wt.pending
      → is_some (lookup e.signal_id wt.pending) ≡ true
      → let (done, wt', w') = fire_viable (reporting b) o e price wt w in
        Tells e.signal_id w.1 w'.1 t (after_fire done t)
  unfolding fire_viable reporting
  fire_viable-Tells none e price wt w t f h = fire_answer-Tells _ e wt _ t f h
  fire_viable-Tells (some reason) e price wt w t f h =
      cancel-Tells_fire "not_viable_at_fill:" reason e wt w t refl f h

  pub fire-Tells :
      (e : PendingEntry) (price : ℤ) (wt : EntryWatcher) (w : W × List Ending) (t : Counts)
      → IsFiled wt.pending
      → is_some (lookup e.signal_id wt.pending) ≡ true
      → let (done, wt', w') = fire (reporting b) e price wt w in
        Tells e.signal_id w.1 w'.1 t (after_fire done t)
  unfolding fire
  fire-Tells e price wt w t f h =
      let (reason, w') = viable (reporting b) e wt w in
      let r = fire_viable-Tells reason e price wt w' t f h in
      (r.0, r.1 ∙ ap (λ l. r.0 ∷ l) (viable-told e wt w), r.2, r.3)
