-- ===== src/Entry/Watcher/Told.antt =====
-- zcastor/entry/watcher.py: a cycle tells the hooks of each entry that it ends, once, as it counts it.
use zcastor_agent.Base.{
  ℕ, ◌+◌, String, String-discrete, ◌≡◌, refl, true, Option, none, some, List, [], ◌∷◌, length,
  is_some, arith, Bool-cases, inl, inr, if◌then◌else◌, ◌==◌,
}
use zcastor_agent.Base.Dict.{Dict, lookup, insert, values, lookup-insert}
use zcastor_agent.Base.Int.{ℤ}
use zcastor_agent.Entry.Pending.{PendingEntry, Move, wait, fill, evaluate, is_buy, expired}
use zcastor_agent.Entry.Watcher.{
  Desk, EntryWatcher, Tick, Counts, no_counts, act, poll_one, poll_all, poll_tick, sweep, poll,
}
use zcastor_agent.Entry.Watcher.Filed.{
  IsFiled, insert-IsFiled, signal_id-evaluate, cancel-pending, fire-pending,
}
use zcastor_agent.Entry.Watcher.Endings.{
  ended, Queued, Queued-others, values-Queued, poll_one-Round, poll_tick-balance, sweep-IsFiled,
  is_some-insert,
}
use zcastor_agent.Entry.Watcher.Accounts.{
  Ending, fills, expiries, cancels, endings_of, present, reporting, Accounts, Accounts-same,
  Accounts-then, Tells-Accounts,
}
use zcastor_agent.Entry.Watcher.Hooks.{cancel-Tells, fire-Tells}

present-insert :
    (k j : String) (v : PendingEntry) (d : Dict PendingEntry)
    → is_some (lookup k d) ≡ true
    → present j (insert k v d) ≡ present j d
present-insert k j v d h = ground (arith, lookup-insert k j v d)

module _ {W : Type 0} (b : Desk W) where
  -- What a round on an entry leaves, against what it tells.
  abbrev Settles :
      EntryWatcher → EntryWatcher → List Ending → List Ending → Counts → Counts → Type 0
  Settles wt wt' l l' t t' = Accounts wt.pending wt'.pending l l' t t'

  act-Settles :
      (m : Move) (e : PendingEntry) (price : ℤ) (wt : EntryWatcher) (w : W × List Ending)
      (t : Counts)
      → IsFiled wt.pending
      → is_some (lookup e.signal_id wt.pending) ≡ true
      → let (wt', w', t') = act (reporting b) m e price wt w t in Settles wt wt' w.1 w'.1 t t'
  unfolding act String-discrete
  act-Settles wait e price wt w t f h = Accounts-same wt.pending wt.pending w.1 t (λ j. refl)
  act-Settles Move.cancel e price wt w t f h =
      rw (cancel-pending (reporting b) e.signal_id "level_broke" wt w) (
        Tells-Accounts e.signal_id wt.pending w.1 _ t _ f h
          (cancel-Tells b e.signal_id "level_broke" wt w t f h))
  act-Settles fill e price wt w t f h =
      rw (fire-pending (reporting b) e price wt w)
        (Tells-Accounts e.signal_id wt.pending w.1 _ t _ f h (fire-Tells b e price wt w t f h))

  poll_one-Settles :
      (now : ℕ) (tick : Tick) (e : PendingEntry) (wt : EntryWatcher) (w : W × List Ending)
      (t : Counts)
      → IsFiled wt.pending
      → is_some (lookup e.signal_id wt.pending) ≡ true
      → let (wt', w', t') = poll_one (reporting b) now tick e wt w t in Settles wt wt' w.1 w'.1 t t'
  unfolding poll_one String-discrete
  poll_one-Settles now tick e wt w t f h =
      let price = if is_buy e then tick.ask else tick.bid in
      let (e', m) = evaluate e price in
      let kept : e'.signal_id ≡ e.signal_id = signal_id-evaluate e price in
      let put = record wt { pending = insert e.signal_id e' wt.pending } in
      elim (Bool-cases (expired now e)) [
        | inl late ↦ rw late (
            rw (cancel-pending (reporting b) e.signal_id "expired" wt w) (
              Tells-Accounts e.signal_id wt.pending w.1 _ t _ f h
                (cancel-Tells b e.signal_id "expired" wt w t f h)))
        | inr early ↦ rw early (
            Accounts-then wt.pending put.pending _ w.1 w.1 _ t t _
              (Accounts-same wt.pending put.pending w.1 t
                (λ j. present-insert e.signal_id j e' wt.pending h))
              (act-Settles m e' price put w t (insert-IsFiled e.signal_id e' wt.pending kept f)
                (rw kept (is_some-insert e.signal_id e' wt.pending))))
      ]

  poll_all-Settles :
      (now : ℕ) (tick : Tick) (es : List PendingEntry) (wt : EntryWatcher) (w : W × List Ending)
      (t : Counts)
      → IsFiled wt.pending
      → Queued b wt.pending es
      → let (wt', w', t') = poll_all (reporting b) now tick es wt w t in
        Settles wt wt' w.1 w'.1 t t'
  unfolding poll_all
  poll_all-Settles now tick [] wt w t f q = Accounts-same wt.pending wt.pending w.1 t (λ j. refl)
  poll_all-Settles now tick (e ∷ es) wt w t f q =
      let r = poll_one-Round (reporting b) now tick e wt w t q.0 in
      let here = poll_one-Settles now tick e wt w t f q.0 in
      let (wt', w', t') = poll_one (reporting b) now tick e wt w t in
      Accounts-then wt.pending wt'.pending _ w.1 w'.1 _ t t' _ here (
        poll_all-Settles now tick es wt' w' t' (r.filed f)
          (Queued-others b e.signal_id wt.pending wt'.pending es r.others q.1 q.2))

  poll_tick-Settles :
      (o : Option Tick) (wt : EntryWatcher) (w : W × List Ending)
      → IsFiled wt.pending
      → let (wt', w', t) = poll_tick (reporting b) o wt w in Settles wt wt' w.1 w'.1 no_counts t
  unfolding poll_tick reporting
  poll_tick-Settles none wt w f = Accounts-same wt.pending wt.pending w.1 no_counts (λ j. refl)
  poll_tick-Settles (some tick) wt w f =
      let (now, w') = (reporting b).clock w in
      poll_all-Settles now tick (values wt.pending) wt w' no_counts f (values-Queued b wt.pending f)

  -- The endings since agree with the counts, and each id is pending or has ended as it was before.
  abbrev pub Agrees : EntryWatcher → EntryWatcher → List Ending → List Ending → Counts → Type 0
  Agrees wt wt' l l' t =
      (fills l' ≡ fills l + t.filled)
      × (expiries l' ≡ expiries l + t.expired_n)
      × (cancels l' ≡ cancels l + t.cancelled)
      × ((j : String)
          → present j wt'.pending + endings_of j l' ≡ present j wt.pending + endings_of j l)
      × (length wt'.pending + ended t ≡ length wt.pending)
      × IsFiled wt'.pending

  poll_tick-Agrees :
      (o : Option Tick) (wt : EntryWatcher) (w : W × List Ending)
      → IsFiled wt.pending
      → let (wt', w', t) = poll_tick (reporting b) o wt w in Agrees wt wt' w.1 w'.1 t
  poll_tick-Agrees o wt w f =
      let r = poll_tick-Settles o wt w f in
      (
        omega (arith, r.filled),
        omega (arith, r.expired_n),
        omega (arith, r.cancelled),
        r.each,
        (poll_tick-balance (reporting b) o wt w f).0,
        (poll_tick-balance (reporting b) o wt w f).1,
      )

  -- Over a cycle on entries that are filed under their ids, whatever the broker answers: after the
  -- sweep, the hooks are told of as many fills as are counted as filled, of as many closes for the
  -- reason "expired" as are counted as expired, and of as many closes for other reasons as are counted
  -- as cancelled; an id that was pending after the sweep either stays pending or is told of once, and
  -- no other is told of; the counts and the entries that stay make up those that were left by the
  -- sweep, and the latter are filed under their ids.
  pub poll-tells :
      (wt : EntryWatcher) (w : W × List Ending)
      → IsFiled wt.pending
      → let (swept, w₁) = sweep (reporting b) wt w in
        let (wt', w', t) = poll (reporting b) wt w in Agrees swept wt' w₁.1 w'.1 t
  unfolding poll reporting
  poll-tells wt w f =
      let (swept, w₁) = sweep (reporting b) wt w in
      let (tick, w₂) = (reporting b).get_tick w₁ in
      let g = sweep-IsFiled (reporting b) wt w f in
      elim (Bool-cases (length swept.pending == 0)) [
        | inl idle ↦ rw idle (omega arith, omega arith, omega arith, λ j. refl, omega arith, g)
        | inr busy ↦ rw busy (poll_tick-Agrees tick swept w₂ g)
      ]
