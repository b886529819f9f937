-- ===== src/Entry/Watcher/Filed.antt =====
-- zcastor/entry/watcher.py: each operation takes entries out of the pending ones, under their ids.
use zcastor_agent.Base.{
  ◌+◌, String, ◌≡◌, refl, true, Option, none, some, List, [], ◌∷◌, length, arith, is_some, sym,
}
use zcastor_agent.Base.Dict.{Dict, lookup, insert, erase, lookup-insert, lookup-erase_ne}
use zcastor_agent.Base.Int.{ℤ}
use zcastor_agent.Entry.Pending.{PendingEntry, exhaustion, fresh, evaluate}
use zcastor_agent.Entry.Watcher.{
  Desk, EntryWatcher, OrderAnswer, placed, refused, close, cancel, cancel_all, fire, fire_viable,
  fire_answer, viable,
}

module _ {ℓ} {V : Type ℓ} where
  pub erase_missing : (k : String) (d : Dict V) → lookup k d ≡ none → erase k d ≡ d
  erase_missing k [] h = refl
  erase_missing k ((j, v) ∷ d) h = ground (arith, erase_missing k d)

  pub length-erase :
      (k : String) (d : Dict V) → is_some (lookup k d) ≡ true → length (erase k d) + 1 ≡ length d
  length-erase k [] h = cc
  length-erase k ((j, v) ∷ d) h = ground (arith, length-erase k d)

  pub length-insert :
      (k : String) (v : V) (d : Dict V)
      → is_some (lookup k d) ≡ true
      → length (insert k v d) ≡ length d
  length-insert k v [] h = cc
  length-insert k v ((j, w) ∷ d) h = ground (arith, length-insert k v d)

  pub erase-insert_new :
      (k : String) (v : V) (d : Dict V) → lookup k d ≡ none → erase k (insert k v d) ≡ d
  erase-insert_new k v [] h = ground arith
  erase-insert_new k v ((j, w) ∷ d) h = ground (arith, erase-insert_new k v d)

-- Each entry is filed under its id, and no id stands twice.
abbrev pub IsFiled : Dict PendingEntry → Type 0
IsFiled [] = Unit
IsFiled ((j, e) ∷ d) = (e.signal_id ≡ j) × (lookup j d ≡ none) × IsFiled d

pub erase-IsFiled : (k : String) (d : Dict PendingEntry) → IsFiled d → IsFiled (erase k d)
erase-IsFiled k [] f = tt
erase-IsFiled k ((j, e) ∷ d) f = ground (arith, erase-IsFiled k d f.2, lookup-erase_ne k j d)

pub insert-IsFiled :
    (k : String) (e : PendingEntry) (d : Dict PendingEntry)
    → e.signal_id ≡ k
    → IsFiled d
    → IsFiled (insert k e d)
insert-IsFiled k e [] h f = (h, refl, tt)
insert-IsFiled k e ((j, x) ∷ d) h f =
    ground (arith, insert-IsFiled k e d h f.2, lookup-insert k j e d)

-- The state machine keeps the id.
pub signal_id-evaluate :
    (e : PendingEntry) (price : ℤ) → (evaluate e price).0.signal_id ≡ e.signal_id
unfolding evaluate exhaustion fresh
signal_id-evaluate e price = ground arith

module _ {W : Type 0} (b : Desk W) where
  close-pending :
      (o : Option PendingEntry) (id reason : String) (wt : EntryWatcher) (w : W)
      → lookup id wt.pending ≡ o
      → (close b o id reason wt w).1.pending ≡ erase id wt.pending
  unfolding close
  close-pending none id reason wt w h = sym (erase_missing id wt.pending h)
  close-pending (some e) id reason wt w h = refl

  pub cancel-pending :
      (id reason : String) (wt : EntryWatcher) (w : W)
      → (cancel b id reason wt w).1.pending ≡ erase id wt.pending
  unfolding cancel
  cancel-pending id reason wt w = close-pending (lookup id wt.pending) id reason wt w refl

  fire_answer-pending :
      (a : OrderAnswer) (e : PendingEntry) (wt : EntryWatcher) (w : W)
      → (fire_answer b a e wt w).1.pending ≡ erase e.signal_id wt.pending
  unfolding fire_answer
  fire_answer-pending (placed r) e wt w = refl
  fire_answer-pending (refused error) e wt w = cancel-pending _ _ _ _

  fire_viable-pending :
      (o : Option String) (e : PendingEntry) (price : ℤ) (wt : EntryWatcher) (w : W)
      → (fire_viable b o e price wt w).1.pending ≡ erase e.signal_id wt.pending
  unfolding fire_viable
  fire_viable-pending none e price wt w = fire_answer-pending _ e wt _
  fire_viable-pending (some reason) e price wt w = cancel-pending _ _ _ _

  -- However a fire ends, its entry is no longer pending.
  pub fire-pending :
      (e : PendingEntry) (price : ℤ) (wt : EntryWatcher) (w : W)
      → (fire b e price wt w).1.pending ≡ erase e.signal_id wt.pending
  unfolding fire
  fire-pending e price wt w = fire_viable-pending (viable b e wt w).0 e price wt (viable b e wt w).1

  pub cancel_all-IsFiled :
      (ids : List String) (reason : String) (wt : EntryWatcher) (w : W)
      → IsFiled wt.pending
      → IsFiled (cancel_all b ids reason wt w).0.pending
  unfolding cancel_all
  cancel_all-IsFiled [] reason wt w f = f
  cancel_all-IsFiled (id ∷ ids) reason wt w f =
      cancel_all-IsFiled ids reason _ _ (rw cancel-pending (erase-IsFiled id wt.pending f))
