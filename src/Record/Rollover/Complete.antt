-- ===== src/Record/Rollover/Complete.antt =====
-- zcastor/record/rollover.py: no decision is lost at the boundary of a day.
use zcastor_agent.Base.{
  String, str_eq, Bool, true, false, ◌||◌, ◌&&◌, Option, none, some, List, [], ◌∷◌, ◌++◌, any,
  is_some, ◌≡◌, refl, ap, ◌∙◌, arith, inl, inr, Bool-cases, if◌then◌else◌,
}
use zcastor_agent.Base.Dict.{lookup}
use zcastor_agent.Gates.Verdict.{DecisionTrace, recordable}
use zcastor_agent.Anchor.Outbox.{Outbox}
use zcastor_agent.Anchor.Index.{Value, Row, AnchorIndex, get_by_checksum}
use zcastor_agent.Record.DecisionLog.{LogEntry, DecisionLog, Noted, add, build, entry_of}
use zcastor_agent.Record.Rollover.{
  Published, Press, SessionRollover, supersede_row, supersede_found, supersede, queue_log,
  close_with, close_published, close_log, tick_day,
}

-- The entries that were published, beside the world.
abbrev pub Printed : Type 0 → Type 0
Printed W = W × List LogEntry

-- The publisher that keeps them, where it does not raise, and is otherwise the given one.
unfoldable pub printing : {W : Type 0} → Press W → Press (Printed W)
printing q = record {
  publish_decision_log = λ b w.
      let (o, v) = q.publish_decision_log b w.0 in
      (o, (v, if is_some o then b.decisions ++ w.1 else w.1));
  utc_day = λ w. ((q.utc_day w.0).0, ((q.utc_day w.0).1, w.1));
  uuid = λ w. ((q.uuid w.0).0, ((q.uuid w.0).1, w.1));
}

-- What happens in a session: a decision is logged, the timer ticks, or the log is closed.
pub data Op : Type 0 where
  decided : Noted → DecisionTrace → Op
  ticked : Op
  closed : Bool → Op

abbrev pub has_entry : String → List LogEntry → Bool
has_entry id = any (λ l. str_eq l.signal_id id)

-- The signal has an entry in the log of the day or in one that was published.
abbrev pub accounts : {W : Type 0} → String → SessionRollover (Printed W) → Bool
accounts id s = has_entry id s.world.1 || has_entry id s.log.entries

module _ {W : Type 0} (q : Press W) where
  unfoldable pub perform_op : Op → SessionRollover (Printed W) → SessionRollover (Printed W)
  perform_op (decided n t) s = record s { log = add n t s.log }
  perform_op ticked s = (tick_day (printing q) s).1
  perform_op (closed start_new) s = (close_log (printing q) start_new s).1

  unfoldable pub session : List Op → SessionRollover (Printed W) → SessionRollover (Printed W)
  unfolding perform_op
  session [] s = s
  session (o ∷ os) s = session os (perform_op o s)

-- The signal was decided, and not rejected.
abbrev pub decides : String → Op → Bool
decides id (decided n t) = recordable t && str_eq n.signal_id id
decides id ticked = false
decides id (closed b) = false

-- The log of the day and what was published are the same.
abbrev Same : {W : Type 0} → SessionRollover (Printed W) → SessionRollover (Printed W) → Type 0
Same s s' = (s'.log ≡ s.log) × (s'.world.1 ≡ s.world.1)

module _ {W : Type 0} (q : Press W) where
  supersede_row-Same :
      (v id : Option Value) (r : Row) (b : Outbox) (i : AnchorIndex)
      (s : SessionRollover (Printed W))
      → Same s (supersede_row (printing q) v id r b i s).1
  unfolding supersede_row printing
  supersede_row-Same none id r b i s = (refl, refl)
  supersede_row-Same (some v) none r b i s = (refl, refl)
  supersede_row-Same (some v) (some id) r b i s = (refl, refl)

  choose-Same :
      (c : Bool) (s : SessionRollover (Printed W)) (x y : Bool × SessionRollover (Printed W))
      → Same s x.1
      → Same s y.1
      → Same s (if c then x else y).1
  choose-Same true s x y h k = h
  choose-Same false s x y h k = k

  supersede_found-Same :
      (o : Option Row) (b : Outbox) (i : AnchorIndex) (s : SessionRollover (Printed W))
      → Same s (supersede_found (printing q) o b i s).1
  unfolding supersede_found
  supersede_found-Same none b i s = (refl, refl)
  supersede_found-Same (some r) b i s =
      choose-Same _ s _ _ (supersede_row-Same (lookup "registry" r) (lookup "signal_id" r) r b i s)
        (refl, refl)

  supersede-Same :
      (c : Option String) (i : Option AnchorIndex) (b : Option Outbox)
      (s : SessionRollover (Printed W))
      → Same s (supersede (printing q) c i b s).1
  unfolding supersede
  supersede-Same (some c) (some i) (some b) s =
      choose-Same _ s _ _ (refl, refl) (supersede_found-Same (get_by_checksum c i) b i s)
  supersede-Same (some c) (some i) none s = (refl, refl)
  supersede-Same (some c) none b s = (refl, refl)
  supersede-Same none i b s = (refl, refl)

  queue_log-Same :
      (b : Option Outbox) (p : Published) (s : SessionRollover (Printed W))
      → Same s (queue_log (printing q) b p s).1
  unfolding queue_log printing
  queue_log-Same none p s = (refl, refl)
  queue_log-Same (some b) p s = (refl, refl)

  has_entry-append :
      (id : String) (xs ys : List LogEntry)
      → has_entry id (xs ++ ys) ≡ (has_entry id xs || has_entry id ys)
  has_entry-append id [] ys = refl
  has_entry-append id (x ∷ xs) ys = ground (arith, has_entry-append id xs ys)

  -- Closing the log once it is printed loses nothing.
  close_with-accounts :
      (start_new : Bool) (p : Published) (id : String) (s : SessionRollover (Printed W))
      → has_entry id s.world.1 ≡ true
      → accounts id (close_with (printing q) start_new p s).1 ≡ true
  unfolding close_with printing
  close_with-accounts true p id s h = ground (arith, h, (queue_log-Same s.outbox p s).1)
  close_with-accounts false p id s h = ground (arith, h, (queue_log-Same s.outbox p s).1)

  printed-accounts :
      (id : String) (s s' : SessionRollover (Printed W))
      → Same s s'
      → has_entry id s.world.1 ≡ true
      → accounts id s' ≡ true
  printed-accounts id s s' h k = ground (arith, ap (has_entry id) h.1 ∙ k)

  close_published-accounts :
      (start_new : Bool) (id : String) (o : Option Published) (s : SessionRollover (Printed W))
      → (is_some o ≡ true → has_entry id s.world.1 ≡ true)
      → (is_some o ≡ false → accounts id s ≡ true)
      → accounts id (close_published (printing q) start_new o s).1 ≡ true
  unfolding close_published
  close_published-accounts start_new id none s printed kept = kept refl
  close_published-accounts start_new id (some p) s printed kept =
      let moved = supersede (printing q) p.supersedes s.anchor_index s.outbox s in
      let same = supersede-Same p.supersedes s.anchor_index s.outbox s in
      elim (Bool-cases moved.0) [
        | inl on ↦
            rw on
              (close_with-accounts start_new p id moved.1 (ap (has_entry id) same.1 ∙ printed refl))
        | inr off ↦ rw off (printed-accounts id s moved.1 same (printed refl))
      ]

  close_log-accounts :
      (start_new : Bool) (id : String) (s : SessionRollover (Printed W))
      → accounts id s ≡ true
      → accounts id (close_log (printing q) start_new s).1 ≡ true
  unfolding close_log printing build
  close_log-accounts start_new id s h =
      let (o, w) = q.publish_decision_log (build s.policy_version s.process_hash s.log) s.world.0 in
      let all = s.log.entries ++ s.world.1 in
      let printed = has_entry-append id s.log.entries s.world.1 in
      close_published-accounts start_new id o
        (record s { world = (w, if is_some o then all else s.world.1) })
        (λ some_one. rw some_one (printed ∙ ground (arith, h))) (λ nothing. rw nothing h)

  tick_day-accounts :
      (id : String) (s : SessionRollover (Printed W))
      → accounts id s ≡ true
      → accounts id (tick_day (printing q) s).1 ≡ true
  unfolding tick_day printing
  tick_day-accounts id s h =
      let (day, w) = q.utc_day s.world.0 in
      let s' : SessionRollover (Printed W) = record s { world = (w, s.world.1) } in
      elim (Bool-cases (str_eq day s.day)) [
        | inl same ↦ rw same h
        | inr new ↦ rw new (close_log-accounts true id s' h)
      ]

  add-has_entry :
      (n : Noted) (t : DecisionTrace) (id : String) (l : DecisionLog)
      → (has_entry id l.entries || decides id (decided n t)) ≡ true
      → has_entry id (add n t l).entries ≡ true
  unfolding add entry_of
  add-has_entry n t id l h = ground (arith, h, has_entry-append id l.entries (entry_of n t ∷ []))

  perform_op-accounts :
      (o : Op) (id : String) (s : SessionRollover (Printed W))
      → (accounts id s || decides id o) ≡ true
      → accounts id (perform_op q o s) ≡ true
  unfolding perform_op
  perform_op-accounts (decided n t) id s h = elim (Bool-cases (has_entry id s.world.1)) [
    | inl printed ↦ rw printed refl
    | inr unprinted ↦ rw unprinted (add-has_entry n t id s.log (ground arith))
  ]
  perform_op-accounts ticked id s h = tick_day-accounts id s (ground arith)
  perform_op-accounts (closed b) id s h = close_log-accounts b id s (ground arith)

  -- A signal that was decided in a session, and not rejected, has an entry in the log of the day or
  -- in one that was published, whatever the publisher and the clock answer, and also where the
  -- publisher raises or closing the log fails half-way.
  pub session-accounts :
      (id : String) (os : List Op) (s : SessionRollover (Printed W))
      → (accounts id s || any (decides id) os) ≡ true
      → accounts id (session q os s) ≡ true
  unfolding session
  session-accounts id [] s h = ground arith
  session-accounts id (o ∷ os) s h =
      session-accounts id os (perform_op q o s) (elim (Bool-cases (accounts id s || decides id o)) [
        | inl here ↦ rw (perform_op-accounts o id s here) refl
        | inr later ↦ ground arith
      ])
