-- ===== src/Anchor/Outbox/Recovery.antt =====
-- zcastor/anchor/outbox.py: a process that stops between two operations finds its queue again by
-- replaying the file.
use zcastor_agent.Base.{
  ℕ, zero, suc, String, str_mem, ◌≡◌, refl, ◌∙◌, sym, none, some, List, [], ◌∷◌, take, arith, All,
  ◌≢◌, Bool-cases, inl, inr, ltb,
}
use zcastor_agent.Base.Dict.{Dict, lookup, values}
use zcastor_agent.Anchor.Record.{
  PendingRecord, dedupe_key, Answer, accepted, unavailable, failed, Chain,
}
use zcastor_agent.Anchor.Outbox.{
  Outbox, replay_all, load, empty, Tally, handle, drain_one, drain_all, drain,
}
use zcastor_agent.Anchor.Outbox.Requeue.{requeue_all, requeue_parked}
use zcastor_agent.Anchor.Outbox.Replayed.{cores, IsRecoverable}
use zcastor_agent.Anchor.Outbox.Filed.{
  IsFiled, enqueue-IsFiled, drain-IsFiled, requeue_parked-IsFiled,
}
use zcastor_agent.Anchor.Outbox.History.{Op, work, drained, requeued, perform, history}
use zcastor_agent.Anchor.Outbox.Operations.{
  enqueue-IsRecoverable, park-IsRecoverable, complete-IsRecoverable, drop_done-IsRecoverable,
  backoff-IsRecoverable, Held, HasOwnIds, Held-erase, backoff-Held, requeue_one-IsRecoverable,
}

module _ {W : Type 0} (b : Chain W) where
  -- One round keeps the file and the queue together, and the rest of the entries held.
  handle-IsRecoverable :
      (e : PendingRecord) (a : Answer) (w : W) (s : Outbox) (t : Tally) (es : List PendingRecord)
      → IsRecoverable s
      → lookup e.id s.pending ≡ some e
      → Held s.pending es
      → All (λ x. x.id ≢ e.id) es
      → let s' = (handle b e a w s t).0 in IsRecoverable s' × Held s'.pending es
  unfolding handle
  handle-IsRecoverable e (accepted r) w s t es h p held ne =
      (complete-IsRecoverable _ e r s h p, Held-erase e.id s.pending es held ne)
  handle-IsRecoverable e (unavailable error) w s t es h p held ne =
      (backoff-IsRecoverable _ _ e error s h p, backoff-Held _ _ e error s es held ne)
  handle-IsRecoverable e (failed error) w s t es h p held ne =
      (park-IsRecoverable _ e e error s h p, Held-erase e.id s.pending es held ne)

  drain_one-IsRecoverable :
      (now : ℕ) (e : PendingRecord) (s : Outbox) (w : W) (t : Tally) (es : List PendingRecord)
      → IsRecoverable s
      → lookup e.id s.pending ≡ some e
      → Held s.pending es
      → All (λ x. x.id ≢ e.id) es
      → let s' = (drain_one b now e s w t).0 in IsRecoverable s' × Held s'.pending es
  unfolding drain_one
  drain_one-IsRecoverable now e s w t es h p held ne =
      elim (Bool-cases (ltb now e.next_attempt_at)) [
        | inl early ↦ rw early (h, held)
        | inr due ↦ rw due (elim (Bool-cases (str_mem (dedupe_key e) s.done)) [
          | inl old ↦
              rw old (drop_done-IsRecoverable _ e s h p old, Held-erase e.id s.pending es held ne)
          | inr new ↦ rw new (handle-IsRecoverable e _ _ s t es h p held ne)
        ])
      ]

  drain_all-IsRecoverable :
      (now : ℕ) (es : List PendingRecord) (s : Outbox) (w : W) (t : Tally)
      → IsRecoverable s
      → Held s.pending es
      → HasOwnIds es
      → IsRecoverable (drain_all b now es s w t).0
  unfolding drain_all
  drain_all-IsRecoverable now [] s w t h held own = h
  drain_all-IsRecoverable now (e ∷ es) s w t h held own =
      let (h', held') = drain_one-IsRecoverable now e s w t es h held.0 held.1 own.0 in
      drain_all-IsRecoverable now es _ _ _ h' held' own.1

Held-cons :
    (j : String) (v : PendingRecord) (d : Dict PendingRecord) (es : List PendingRecord)
    → lookup j d ≡ none
    → Held d es
    → Held ((j, v) ∷ d) es
Held-cons j v d [] new h = tt
Held-cons j v d (e ∷ es) new h = (ground (arith, h.0), Held-cons j v d es new h.1)

values-Held : (d : Dict PendingRecord) → IsFiled d → Held d (values d)
values-Held [] f = tt
values-Held ((j, v) ∷ d) f = (ground arith, Held-cons j v d (values d) f.1 (values-Held d f.2))

ids_differ :
    (j : String) (d : Dict PendingRecord)
    → IsFiled d
    → lookup j d ≡ none
    → All (λ x. x.id ≢ j) (values d)
ids_differ j [] f h = tt
ids_differ j ((i, v) ∷ d) f h =
    (λ p. ground (arith, sym (f.0 ∙ p)), ids_differ j d f.2 (ground arith))

values-HasOwnIds : (d : Dict PendingRecord) → IsFiled d → HasOwnIds (values d)
values-HasOwnIds [] f = tt
values-HasOwnIds ((j, v) ∷ d) f = (rw (← f.0) (ids_differ j d f.2 f.1), values-HasOwnIds d f.2)

All-take {ℓ κ} : {A : Type ℓ} (P : A → Type κ) (n : ℕ) (xs : List A) → All P xs → All P (take n xs)
All-take P zero xs h = tt
All-take P (suc n) [] h = tt
All-take P (suc n) (x ∷ xs) h = (h.0, All-take P n xs h.1)

HasOwnIds-take : (n : ℕ) (es : List PendingRecord) → HasOwnIds es → HasOwnIds (take n es)
HasOwnIds-take zero es h = tt
HasOwnIds-take (suc n) [] h = tt
HasOwnIds-take (suc n) (e ∷ es) h = (All-take _ n es h.0, HasOwnIds-take n es h.1)

-- A drain over a queue that is filed by id keeps the file and the queue together, whatever the
-- backend answers.
pub drain-IsRecoverable :
    {W : Type 0} (b : Chain W) (limit : ℕ) (s : Outbox) (w : W)
    → IsFiled s.pending
    → IsRecoverable s
    → IsRecoverable (drain b limit s w).0
unfolding drain
drain-IsRecoverable b limit s w f h =
    drain_all-IsRecoverable b _ (take limit (values s.pending)) s _ _ h
      (All-take _ limit (values s.pending) (values-Held s.pending f))
      (HasOwnIds-take limit (values s.pending) (values-HasOwnIds s.pending f))

requeue_all-IsRecoverable :
    (es : List PendingRecord) (s : Outbox) (n : ℕ)
    → IsRecoverable s
    → IsRecoverable (requeue_all es (s, n)).0
unfolding requeue_all
requeue_all-IsRecoverable [] s n h = h
requeue_all-IsRecoverable (e ∷ es) s n h =
    requeue_all-IsRecoverable es _ _ (requeue_one-IsRecoverable e s n h)

perform-kept :
    {W : Type 0} (b : Chain W) (o : Op) (s : Outbox) (w : W)
    → IsFiled s.pending
    → IsRecoverable s
    → IsFiled (perform b o s w).0.pending × IsRecoverable (perform b o s w).0
unfolding perform requeue_parked
perform-kept b (work id k) s w f h = (enqueue-IsFiled id k s f, enqueue-IsRecoverable id k s h)
perform-kept b (drained limit) s w f h =
    (drain-IsFiled b limit s w f, drain-IsRecoverable b limit s w f h)
perform-kept b requeued s w f h =
    (requeue_parked-IsFiled s f, requeue_all-IsRecoverable (values s.parked_entries) s 0 h)

history-kept :
    {W : Type 0} (b : Chain W) (os : List Op) (s : Outbox) (w : W)
    → IsFiled s.pending
    → IsRecoverable s
    → IsRecoverable (history b os s w).0
unfolding history
history-kept b [] s w f h = h
history-kept b (o ∷ os) s w f h =
    let (f', h') = perform-kept b o s w f h in history-kept b os _ _ f' h'

-- After any sequence of `enqueue`, `drain` and `requeue_parked` on a new outbox, whatever the chain
-- answers, loading the file gives the pending entries of the outbox, in their order and up to
-- their attempts, and the same set of keys that have landed.
pub history-recovered :
    {W : Type 0} (b : Chain W) (os : List Op) (max_attempts : ℕ) (w : W)
    → let s = (history b os (empty max_attempts) w).0 in
      let r = load s.max_attempts s.log in
      (cores r.pending ≡ cores s.pending) × ((k : String) → str_mem k r.done ≡ str_mem k s.done)
unfolding load
history-recovered b os m w =
    let h =
      history-kept b os (empty m) w tt
        (unfold replay_all in record { queue = refl; landed = λ k. refl }) in
    (h.queue, h.landed)
