-- ===== src/Anchor/Outbox/Filed.antt =====
-- zcastor/anchor/outbox.py: `_pending` files each entry under the entry's own id.
use zcastor_agent.Base.{
  ℕ, String, str_mem, ◌≡◌, refl, none, List, [], ◌∷◌, arith, Bool-cases, inl, inr, ltb, take,
}
use zcastor_agent.Base.Dict.{Dict, lookup, insert, erase, values, lookup-insert, lookup-erase_ne}
use zcastor_agent.Anchor.Record.{
  PendingRecord, Answer, accepted, unavailable, failed, Chain, dedupe_key,
}
use zcastor_agent.Anchor.Outbox.{
  Outbox, Work, enqueue, backoff, Tally, handle, drain_one, drain_all, drain, gives_up, tried,
  entry_of,
}
use zcastor_agent.Anchor.Outbox.Requeue.{requeue_one, requeue_all, requeue_parked}

-- The queue files each entry under the entry's own id, once.
abbrev pub IsFiled : Dict PendingRecord → Type 0
IsFiled [] = Unit
IsFiled ((i, e) ∷ d) = (i ≡ e.id) × (lookup i d ≡ none) × IsFiled d

insert-IsFiled :
    (e : PendingRecord) (d : Dict PendingRecord) → IsFiled d → IsFiled (insert e.id e d)
insert-IsFiled e [] f = (refl, refl, tt)
insert-IsFiled e ((i, v) ∷ d) f = ground (arith, insert-IsFiled e d f.2, lookup-insert e.id i e d)

erase-IsFiled : (i : String) (d : Dict PendingRecord) → IsFiled d → IsFiled (erase i d)
erase-IsFiled i [] f = tt
erase-IsFiled i ((j, v) ∷ d) f = ground (arith, erase-IsFiled i d f.2, lookup-erase_ne i j d)

pub enqueue-IsFiled :
    (id : String) (w : Work) (s : Outbox) → IsFiled s.pending → IsFiled (enqueue id w s).1.pending
unfolding enqueue
enqueue-IsFiled id w s f = ground (arith, insert-IsFiled (entry_of id w) s.pending f)

backoff-IsFiled :
    (now at : ℕ) (e : PendingRecord) (error : String) (s : Outbox)
    → IsFiled s.pending
    → IsFiled (backoff now at e error s).pending
unfolding backoff
backoff-IsFiled now at e error s f =
    let put = insert-IsFiled (tried now e error) s.pending f in
    elim (Bool-cases (gives_up e s)) [
      | inl last ↦ rw last (erase-IsFiled e.id _ put)
      | inr again ↦ rw again put
    ]

module _ {W : Type 0} (b : Chain W) where
  handle-IsFiled :
      (e : PendingRecord) (a : Answer) (w : W) (s : Outbox) (t : Tally)
      → IsFiled s.pending
      → IsFiled (handle b e a w s t).0.pending
  unfolding handle
  handle-IsFiled e (accepted r) w s t f = erase-IsFiled e.id s.pending f
  handle-IsFiled e (unavailable error) w s t f = backoff-IsFiled _ _ e error s f
  handle-IsFiled e (failed error) w s t f = erase-IsFiled e.id s.pending f

  drain_one-IsFiled :
      (now : ℕ) (e : PendingRecord) (s : Outbox) (w : W) (t : Tally)
      → IsFiled s.pending
      → IsFiled (drain_one b now e s w t).0.pending
  unfolding drain_one
  drain_one-IsFiled now e s w t f = elim (Bool-cases (ltb now e.next_attempt_at)) [
    | inl early ↦ rw early f
    | inr due ↦ rw due (elim (Bool-cases (str_mem (dedupe_key e) s.done)) [
      | inl old ↦ rw old (erase-IsFiled e.id s.pending f)
      | inr new ↦ rw new (handle-IsFiled e _ _ s t f)
    ])
  ]

  drain_all-IsFiled :
      (now : ℕ) (es : List PendingRecord) (s : Outbox) (w : W) (t : Tally)
      → IsFiled s.pending
      → IsFiled (drain_all b now es s w t).0.pending
  unfolding drain_all
  drain_all-IsFiled now [] s w t f = f
  drain_all-IsFiled now (e ∷ es) s w t f =
      drain_all-IsFiled now es _ _ _ (drain_one-IsFiled now e s w t f)

  pub drain-IsFiled :
      (limit : ℕ) (s : Outbox) (w : W) → IsFiled s.pending → IsFiled (drain b limit s w).0.pending
  unfolding drain
  drain-IsFiled limit s w f =
      let (now, w') = b.clock w in
      drain_all-IsFiled now (take limit (values s.pending)) s w'
        (record { sent_n = 0; failed_n = 0; skipped_n = 0 }) f

pub requeue_one-IsFiled :
    (e : PendingRecord) (s : Outbox) (n : ℕ)
    → IsFiled s.pending
    → IsFiled (requeue_one e (s, n)).0.pending
unfolding requeue_one
requeue_one-IsFiled e s n f = elim (Bool-cases (str_mem (dedupe_key e) s.done)) [
  | inl old ↦ rw old f
  | inr new ↦ rw new (insert-IsFiled (record e { attempts = 0; next_attempt_at = 0 }) s.pending f)
]

requeue_all-IsFiled :
    (es : List PendingRecord) (s : Outbox) (n : ℕ)
    → IsFiled s.pending
    → IsFiled (requeue_all es (s, n)).0.pending
unfolding requeue_all
requeue_all-IsFiled [] s n f = f
requeue_all-IsFiled (e ∷ es) s n f = requeue_all-IsFiled es _ _ (requeue_one-IsFiled e s n f)

pub requeue_parked-IsFiled : (s : Outbox) → IsFiled s.pending → IsFiled (requeue_parked s).0.pending
unfolding requeue_parked
requeue_parked-IsFiled s f = requeue_all-IsFiled (values s.parked_entries) s 0 f
