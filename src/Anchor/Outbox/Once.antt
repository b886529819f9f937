-- ===== src/Anchor/Outbox/Once.antt =====
-- zcastor/anchor/outbox.py: no unit of work lands twice.
use zcastor_agent.Base.{
  ℕ, String, str_mem, ◌≡◌, refl, ◌∙◌, true, false, List, [], ◌∷◌, arith, Bool-cases, inl, inr, ltb,
  take,
}
use zcastor_agent.Base.Dict.{values}
use zcastor_agent.Anchor.Record.{
  PendingRecord, dedupe_key, Answer, accepted, unavailable, failed, Chain, submit,
}
use zcastor_agent.Anchor.Outbox.{
  Outbox, Work, add, empty, enqueue, backoff, Tally, handle, drain_one, drain_all, drain, gives_up,
}
use zcastor_agent.Anchor.Outbox.Requeue.{requeue_one, requeue_all, requeue_parked}
use zcastor_agent.Anchor.Outbox.History.{Op, work, drained, requeued, perform, history}

-- The keys for which the chain answered with a result, newest first, beside the world.
abbrev pub Ledger : Type 0 → Type 0
Ledger W = W × List String

abbrev recorded : {W : Type 0} → String → Answer × W → List String → Answer × Ledger W
recorded k (accepted r, w) ks = (accepted r, (w, k ∷ ks))
recorded k (a, w) ks = (a, (w, ks))

-- The chain that keeps such a list and is otherwise the given one.
unfoldable pub recording : {W : Type 0} → Chain W → Chain (Ledger W)
recording b = record {
  add_record = λ e w. recorded (dedupe_key e) (b.add_record e w.0) w.1;
  update_status = λ e w. recorded (dedupe_key e) (b.update_status e w.0) w.1;
  clock = λ w. ((b.clock w.0).0, ((b.clock w.0).1, w.1));
  on_anchored = λ e r w. (b.on_anchored e r w.0, w.1);
}

-- No key stands twice.
abbrev pub IsDistinct : List String → Type 0
IsDistinct [] = Unit
IsDistinct (k ∷ ks) = (str_mem k ks ≡ false) × IsDistinct ks

-- The keys that landed are distinct, and the outbox knows them all.
record IsKnown (ks done : List String) : Type 0 where
  distinct : IsDistinct ks
  known : (k : String) → str_mem k ks ≡ true → str_mem k done ≡ true

IsKnown-add :
    (k : String) (ks done : List String)
    → IsKnown ks done
    → str_mem k done ≡ false
    → IsKnown (k ∷ ks) (add k done)
IsKnown-add k ks done h new = record {
  distinct = (
    elim (Bool-cases (str_mem k ks)) [ inl old ↦ cc (h.known k old) | inr fresh ↦ fresh ],
    h.distinct,
  );
  known = λ j m. ground (arith, h.known j);
}

abbrev landed_keys : Answer → String → List String → List String
landed_keys (accepted r) k ks = k ∷ ks
landed_keys _ k ks = ks

backoff-done :
    (now at : ℕ) (e : PendingRecord) (error : String) (s : Outbox)
    → (backoff now at e error s).done ≡ s.done
unfolding backoff
backoff-done now at e error s = elim (Bool-cases (gives_up e s)) [
  | inl last ↦ rw last
  | inr again ↦ rw again
]

requeue_one-done : (e : PendingRecord) (s : Outbox) (n : ℕ) → (requeue_one e (s, n)).0.done ≡ s.done
unfolding requeue_one
requeue_one-done e s n = ground arith

requeue_all-done :
    (es : List PendingRecord) (s : Outbox) (n : ℕ) → (requeue_all es (s, n)).0.done ≡ s.done
unfolding requeue_all
requeue_all-done [] s n = refl
requeue_all-done (e ∷ es) s n =
    let (s', n') = requeue_one e (s, n) in requeue_all-done es s' n' ∙ requeue_one-done e s n

enqueue-done : (id : String) (w : Work) (s : Outbox) → (enqueue id w s).1.done ≡ s.done
unfolding enqueue
enqueue-done id w s = ground arith

module _ {W : Type 0} (b : Chain W) where
  -- What a submission adds to the list.
  submit-recorded :
      (e : PendingRecord) (w : Ledger W)
      → (submit (recording b) e w).1.1 ≡ landed_keys (submit (recording b) e w).0 (dedupe_key e) w.1
  unfolding submit recording
  submit-recorded e w = ground arith

  handle-IsKnown :
      (e : PendingRecord) (a : Answer) (w : Ledger W) (s : Outbox) (t : Tally) (ks : List String)
      → IsKnown ks s.done
      → str_mem (dedupe_key e) s.done ≡ false
      → w.1 ≡ landed_keys a (dedupe_key e) ks
      → let (s', w', t') = handle (recording b) e a w s t in IsKnown w'.1 s'.done
  unfolding handle recording
  handle-IsKnown e (accepted r) w s t ks h new eq =
      rw eq (IsKnown-add (dedupe_key e) ks s.done h new)
  handle-IsKnown e (unavailable error) w s t ks h new eq =
      let (now, w') = (recording b).clock w in
      let (at, w'') = (recording b).clock w' in
      rw (backoff-done now at e error s) (elim (Bool-cases (gives_up e s)) [
        | inl last ↦ rw (last, eq) h
        | inr again ↦ rw (again, eq) h
      ])
  handle-IsKnown e (failed error) w s t ks h new eq = rw eq h

  drain_one-IsKnown :
      (now : ℕ) (e : PendingRecord) (s : Outbox) (w : Ledger W) (t : Tally)
      → IsKnown w.1 s.done
      → let (s', w', t') = drain_one (recording b) now e s w t in IsKnown w'.1 s'.done
  unfolding drain_one
  drain_one-IsKnown now e s w t h = elim (Bool-cases (ltb now e.next_attempt_at)) [
    | inl early ↦ rw early h
    | inr due ↦ rw due (elim (Bool-cases (str_mem (dedupe_key e) s.done)) [
      | inl old ↦ rw old (unfold recording in h)
      | inr new ↦ rw new (
          handle-IsKnown e (submit (recording b) e w).0 (submit (recording b) e w).1 s t w.1 h new
            (submit-recorded e w))
    ])
  ]

  drain_all-IsKnown :
      (now : ℕ) (es : List PendingRecord) (s : Outbox) (w : Ledger W) (t : Tally)
      → IsKnown w.1 s.done
      → let (s', w', t') = drain_all (recording b) now es s w t in IsKnown w'.1 s'.done
  unfolding drain_all
  drain_all-IsKnown now [] s w t h = h
  drain_all-IsKnown now (e ∷ es) s w t h =
      let (s', w', t') = drain_one (recording b) now e s w t in
      drain_all-IsKnown now es s' w' t' (drain_one-IsKnown now e s w t h)

  perform-IsKnown :
      (o : Op) (s : Outbox) (w : Ledger W)
      → IsKnown w.1 s.done
      → let (s', w') = perform (recording b) o s w in IsKnown w'.1 s'.done
  unfolding perform drain requeue_parked
  perform-IsKnown (work id k) s w h = rw (enqueue-done id k s) h
  perform-IsKnown (drained limit) s w h =
      let (now, w') = (recording b).clock w in
      drain_all-IsKnown now (take limit (values s.pending)) s w'
        (record { sent_n = 0; failed_n = 0; skipped_n = 0 }) (unfold recording in h)
  perform-IsKnown requeued s w h = rw (requeue_all-done (values s.parked_entries) s 0) h

  history-IsKnown :
      (os : List Op) (s : Outbox) (w : Ledger W)
      → IsKnown w.1 s.done
      → let (s', w') = history (recording b) os s w in IsKnown w'.1 s'.done
  unfolding history
  history-IsKnown [] s w h = h
  history-IsKnown (o ∷ os) s w h =
      let (s', w') = perform (recording b) o s w in
      history-IsKnown os s' w' (perform-IsKnown o s w h)

  -- From a new outbox, after any sequence of `enqueue`, `drain` and `requeue_parked`, whatever the
  -- chain answers and whatever ids are drawn: no dedupe key has landed twice, and each key that has
  -- landed is in the set of the outbox.
  pub history-IsDistinct :
      (os : List Op) (max_attempts : ℕ) (w : W)
      → let (s, w') = history (recording b) os (empty max_attempts) (w, []) in
        IsDistinct w'.1 × ((k : String) → str_mem k w'.1 ≡ true → str_mem k s.done ≡ true)
  history-IsDistinct os m w =
      let h = history-IsKnown os (empty m) (w, []) (record { distinct = tt; known = λ k e. e }) in
      (h.distinct, h.known)
