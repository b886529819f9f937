-- ===== src/Entry/Watcher/Endings.antt =====
-- zcastor/entry/watcher.py: a cycle ends each entry at most once, and counts it.
use zcastor_agent.Base.{
  ℕ, ◌+◌, String, ◌≡◌, refl, ◌≢◌, ◌∙◌, ap, true, Option, none, some, List, [], ◌∷◌, map, length,
  arith, is_some, Bool-cases, inl, inr, All, str_eq, sym, if◌then◌else◌,
}
use zcastor_agent.Base.Dict.{
  Dict, lookup, insert, values, lookup-insert_ne, lookup-erase_ne, lookup-insert_self,
}
use zcastor_agent.Base.Int.{ℤ}
use zcastor_agent.Entry.Pending.{PendingEntry, Move, wait, fill, evaluate, is_buy, expired}
use zcastor_agent.Entry.Watcher.{
  Desk, EntryWatcher, Tick, Counts, cancel_all, act, poll_one, poll_all, poll_tick, sweep_day,
  sweep, stale, no_counts,
}
use zcastor_agent.Entry.Watcher.Filed.{
  IsFiled, erase-IsFiled, insert-IsFiled, signal_id-evaluate, cancel-pending, fire-pending,
  cancel_all-IsFiled, length-erase, length-insert,
}

-- The entries that a cycle ended.
abbrev pub ended : Counts → ℕ
ended t = t.filled + t.cancelled + t.expired_n

-- What a round on an entry does to the pending ones and to the counts.
pub record Round (e : PendingEntry) (wt wt' : EntryWatcher) (t t' : Counts) : Type 0 where
  pub balance : length wt'.pending + ended t' ≡ length wt.pending + ended t
  pub others : (j : String) → j ≢ e.signal_id → lookup j wt'.pending ≡ lookup j wt.pending
  pub filed : IsFiled wt.pending → IsFiled wt'.pending

pub is_some-insert :
    (k : String) (v : PendingEntry) (d : Dict PendingEntry)
    → is_some (lookup k (insert k v d)) ≡ true
is_some-insert k v d = rw lookup-insert_self refl

module _ {W : Type 0} (b : Desk W) where
  act-Round :
      (m : Move) (e : PendingEntry) (price : ℤ) (wt : EntryWatcher) (w : W) (t : Counts)
      → is_some (lookup e.signal_id wt.pending) ≡ true
      → let (wt', w', t') = act b m e price wt w t in Round e wt wt' t t'
  unfolding act
  act-Round wait e price wt w t h = record { balance = refl; others = λ j n. refl; filed = λ f. f }
  act-Round Move.cancel e price wt w t h =
      let gone = cancel-pending b e.signal_id "level_broke" wt w in
      record {
        balance = rw gone (omega (arith, length-erase e.signal_id wt.pending h));
        others = λ j n. rw gone (lookup-erase_ne e.signal_id j wt.pending n);
        filed = λ f. rw gone (erase-IsFiled e.signal_id wt.pending f);
      }
  act-Round fill e price wt w t h =
      let gone = fire-pending b e price wt w in
      record {
        balance = rw gone (ground (arith, length-erase e.signal_id wt.pending h));
        others = λ j n. rw gone (lookup-erase_ne e.signal_id j wt.pending n);
        filed = λ f. rw gone (erase-IsFiled e.signal_id wt.pending f);
      }

  pub poll_one-Round :
      (now : ℕ) (tick : Tick) (e : PendingEntry) (wt : EntryWatcher) (w : W) (t : Counts)
      → is_some (lookup e.signal_id wt.pending) ≡ true
      → let (wt', w', t') = poll_one b now tick e wt w t in Round e wt wt' t t'
  unfolding poll_one
  poll_one-Round now tick e wt w t h =
      let price = if is_buy e then tick.ask else tick.bid in
      let e' = (evaluate e price).0 in
      let m = (evaluate e price).1 in
      let kept : e'.signal_id ≡ e.signal_id = signal_id-evaluate e price in
      let put = record wt { pending = insert e.signal_id e' wt.pending } in
      let gone = cancel-pending b e.signal_id "expired" wt w in
      elim (Bool-cases (expired now e)) [
        | inl late ↦ rw late (record {
          balance = rw gone (omega (arith, length-erase e.signal_id wt.pending h));
          others = λ j n. rw gone (lookup-erase_ne e.signal_id j wt.pending n);
          filed = λ f. rw gone (erase-IsFiled e.signal_id wt.pending f);
        })
        | inr early ↦
            let r =
              act-Round m e' price put w t (rw kept (is_some-insert e.signal_id e' wt.pending)) in
            rw early (record {
              balance =
                  r.balance ∙ ap (λ n. n + ended t) (length-insert e.signal_id e' wt.pending h);
              others =
                  λ j n. r.others j (rw kept n) ∙ lookup-insert_ne e.signal_id j e' wt.pending n;
              filed = λ f. r.filed (insert-IsFiled e.signal_id e' wt.pending kept f);
            })
      ]

  -- The entries are pending, each under an id of its own.
  abbrev pub Queued : Dict PendingEntry → List PendingEntry → Type 0
  Queued d [] = Unit
  Queued d (e ∷ es) =
      (is_some (lookup e.signal_id d) ≡ true)
      × All (λ x. x.signal_id ≢ e.signal_id) es
      × Queued d es

  pub Queued-others :
      (k : String) (d d' : Dict PendingEntry) (es : List PendingEntry)
      → ((j : String) → j ≢ k → lookup j d' ≡ lookup j d)
      → All (λ x. x.signal_id ≢ k) es
      → Queued d es
      → Queued d' es
  Queued-others k d d' [] same ne q = tt
  Queued-others k d d' (e ∷ es) same ne q =
      (rw (same e.signal_id ne.0) q.0, q.1, Queued-others k d d' es same ne.1 q.2)

  poll_all-balance :
      (now : ℕ) (tick : Tick) (es : List PendingEntry) (wt : EntryWatcher) (w : W) (t : Counts)
      → Queued wt.pending es
      → let (wt', w', t') = poll_all b now tick es wt w t in
        (length wt'.pending + ended t' ≡ length wt.pending + ended t)
        × (IsFiled wt.pending → IsFiled wt'.pending)
  unfolding poll_all
  poll_all-balance now tick [] wt w t q = (refl, λ f. f)
  poll_all-balance now tick (e ∷ es) wt w t q =
      let r = poll_one-Round now tick e wt w t q.0 in
      let (wt', w', t') = poll_one b now tick e wt w t in
      let (all, f) =
        poll_all-balance now tick es wt' w' t'
          (Queued-others e.signal_id wt.pending wt'.pending es r.others q.1 q.2) in
      (all ∙ r.balance, λ g. f (r.filed g))

  Queued-cons :
      (j : String) (v : PendingEntry) (d : Dict PendingEntry) (es : List PendingEntry)
      → Queued d es
      → Queued ((j, v) ∷ d) es
  Queued-cons j v d [] q = tt
  Queued-cons j v d (e ∷ es) q = (ground (arith, q.0), q.1, Queued-cons j v d es q.2)

  ids_differ :
      (j : String) (d : Dict PendingEntry)
      → IsFiled d
      → lookup j d ≡ none
      → All (λ x. x.signal_id ≢ j) (values d)
  ids_differ j [] f h = tt
  ids_differ j ((i, v) ∷ d) f h =
      (λ p. ground (arith, sym f.0 ∙ p), ids_differ j d f.2 (ground arith))

  pub values-Queued : (d : Dict PendingEntry) → IsFiled d → Queued d (values d)
  values-Queued [] f = tt
  values-Queued ((j, v) ∷ d) f = (
    ground arith,
    rw f.0 (ids_differ j d f.2 f.1),
    Queued-cons j v d (values d) (values-Queued d f.2),
  )

  pub poll_tick-balance :
      (o : Option Tick) (wt : EntryWatcher) (w : W)
      → IsFiled wt.pending
      → let (wt', w', t) = poll_tick b o wt w in
        (length wt'.pending + ended t ≡ length wt.pending) × IsFiled wt'.pending
  unfolding poll_tick
  poll_tick-balance none wt w f = (omega arith, f)
  poll_tick-balance (some tick) wt w f =
      let (now, w') = b.clock w in
      let (count, g) =
        poll_all-balance now tick (values wt.pending) wt w' no_counts
          (values-Queued wt.pending f) in
      (count ∙ omega arith, g f)

  pub sweep-IsFiled :
      (wt : EntryWatcher) (w : W) → IsFiled wt.pending → IsFiled (sweep b wt w).0.pending
  unfolding sweep sweep_day
  sweep-IsFiled wt w f =
      let (now, w₁) = b.clock w in
      let g = cancel_all-IsFiled b (stale now wt) "max_hold" wt w₁ f in
      let (wt', w₂) = cancel_all b (stale now wt) "max_hold" wt w₁ in
      let (today, w₃) = b.today w₂ in
      elim (Bool-cases wt'.day_boundary_close) [
        | inr held ↦ rw held g
        | inl closes ↦ rw closes (elim (Bool-cases (str_eq today wt'.armed_day)) [
          | inl same ↦ rw same g
          | inr next ↦
              rw next (cancel_all-IsFiled b (map (λ x. x.0) wt'.pending) "day_boundary" wt' w₃ g)
        ])
      ]
