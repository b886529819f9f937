-- ===== src/Anchor/Outbox/Operations.antt =====
-- zcastor/anchor/outbox.py: each operation keeps the file and the queue together.
use zcastor_agent.Base.{
  ℕ, String, str_mem, ◌≡◌, refl, ◌∙◌, sym, true, some, List, [], ◌∷◌, All, ◌≢◌, Bool-cases, inl,
  inr,
}
use zcastor_agent.Base.Dict.{
  Dict, lookup, insert, erase, lookup-insert_self, lookup-insert_ne, lookup-erase_ne,
}
use zcastor_agent.Anchor.Record.{PendingRecord, dedupe_key, AnchorResult}
use zcastor_agent.Anchor.Outbox.{
  Outbox, add, Work, entry_of, enqueue, park, backoff, complete, drop_done, gives_up, has_key,
  tried,
}
use zcastor_agent.Anchor.Outbox.Requeue.{requeue_one}
use zcastor_agent.Anchor.Outbox.Replayed.{
  insert_same, IsRecoverable, recover_enqueued, recover_sent, recover_parked,
}

-- The operations. An entry that is handled is the one that the queue holds under its id.
pub enqueue-IsRecoverable :
    (id : String) (w : Work) (s : Outbox) → IsRecoverable s → IsRecoverable (enqueue id w s).1
unfolding enqueue
enqueue-IsRecoverable id w s h = elim (Bool-cases (str_mem (dedupe_key (entry_of id w)) s.done)) [
  | inl old ↦ rw old h
  | inr new ↦ rw new (elim (Bool-cases (has_key (dedupe_key (entry_of id w)) s.pending)) [
    | inl queued ↦ rw queued h
    | inr fresh ↦
        rw fresh (elim (Bool-cases (has_key (dedupe_key (entry_of id w)) s.parked_entries)) [
          | inl kept ↦ rw kept h
          | inr free ↦ rw free (recover_enqueued s _ (entry_of id w) h new refl refl refl refl)
        ])
  ])
]

pub park-IsRecoverable :
    (at : ℕ) (e f : PendingRecord) (error : String) (s : Outbox)
    → IsRecoverable s
    → lookup e.id s.pending ≡ some f
    → IsRecoverable (park at e error s)
unfolding park
park-IsRecoverable at e f error s h p =
    recover_parked s (park at e error s) e f error at h p refl refl refl refl

pub complete-IsRecoverable :
    (at : ℕ) (e : PendingRecord) (r : AnchorResult) (s : Outbox)
    → IsRecoverable s
    → lookup e.id s.pending ≡ some e
    → IsRecoverable (complete at e r s)
unfolding complete
complete-IsRecoverable at e r s h p =
    recover_sent s (complete at e r s) e (dedupe_key e) r.transaction r.record_id at h p refl refl
      refl (λ k. refl)

pub add_old : (x : String) (done : List String) → str_mem x done ≡ true → add x done ≡ done
add_old x done h = rw h

pub drop_done-IsRecoverable :
    (at : ℕ) (e : PendingRecord) (s : Outbox)
    → IsRecoverable s
    → lookup e.id s.pending ≡ some e
    → str_mem (dedupe_key e) s.done ≡ true
    → IsRecoverable (drop_done at e s)
unfolding drop_done
drop_done-IsRecoverable at e s h p old =
    recover_sent s (drop_done at e s) e (dedupe_key e) "duplicate" 0 at h p refl refl refl
      (λ k. rw (add_old (dedupe_key e) s.done old))

pub backoff-IsRecoverable :
    (now at : ℕ) (e : PendingRecord) (error : String) (s : Outbox)
    → IsRecoverable s
    → lookup e.id s.pending ≡ some e
    → IsRecoverable (backoff now at e error s)
unfolding backoff
backoff-IsRecoverable now at e error s h p =
    let e' = tried now e error in
    let s' = record s { pending = insert e.id e' s.pending } in
    let h' : IsRecoverable s' = record {
      queue = h.queue ∙ sym (insert_same e.id e e' s.pending p refl);
      landed = h.landed;
    } in
    let p' : lookup e.id s'.pending ≡ some e' = lookup-insert_self e.id e' s.pending in
    elim (Bool-cases (gives_up e s)) [
      | inl last ↦ rw last (park-IsRecoverable at e' e' _ s' h' p')
      | inr again ↦ rw again h'
    ]

-- The entries of a list are those that the queue holds under their ids.
abbrev pub Held : Dict PendingRecord → List PendingRecord → Type 0
Held d es = All (λ e. lookup e.id d ≡ some e) es

-- No id stands twice.
abbrev pub HasOwnIds : List PendingRecord → Type 0
HasOwnIds [] = Unit
HasOwnIds (e ∷ es) = All (λ x. x.id ≢ e.id) es × HasOwnIds es

pub Held-erase :
    (i : String) (d : Dict PendingRecord) (es : List PendingRecord)
    → Held d es
    → All (λ x. x.id ≢ i) es
    → Held (erase i d) es
Held-erase i d [] h ne = tt
Held-erase i d (e ∷ es) h ne = (lookup-erase_ne i e.id d ne.0 ∙ h.0, Held-erase i d es h.1 ne.1)

pub Held-insert :
    (i : String) (f : PendingRecord) (d : Dict PendingRecord) (es : List PendingRecord)
    → Held d es
    → All (λ x. x.id ≢ i) es
    → Held (insert i f d) es
Held-insert i f d [] h ne = tt
Held-insert i f d (e ∷ es) h ne =
    (lookup-insert_ne i e.id f d ne.0 ∙ h.0, Held-insert i f d es h.1 ne.1)

pub backoff-Held :
    (now at : ℕ) (e : PendingRecord) (error : String) (s : Outbox) (es : List PendingRecord)
    → Held s.pending es
    → All (λ x. x.id ≢ e.id) es
    → Held (backoff now at e error s).pending es
unfolding backoff
backoff-Held now at e error s es h ne =
    let put = Held-insert e.id (tried now e error) s.pending es h ne in
    elim (Bool-cases (gives_up e s)) [
      | inl last ↦ rw last (Held-erase e.id _ es put ne)
      | inr again ↦ rw again put
    ]

pub requeue_one-IsRecoverable :
    (e : PendingRecord) (s : Outbox) (n : ℕ)
    → IsRecoverable s
    → IsRecoverable (requeue_one e (s, n)).0
unfolding requeue_one dedupe_key
requeue_one-IsRecoverable e s n h = elim (Bool-cases (str_mem (dedupe_key e) s.done)) [
  | inl old ↦ rw old (record { queue = h.queue; landed = h.landed })
  | inr new ↦ rw new (
      recover_enqueued s _ (record e { attempts = 0; next_attempt_at = 0 }) h new refl refl refl
        refl)
]
