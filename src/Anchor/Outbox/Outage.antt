-- ===== src/Anchor/Outbox/Outage.antt =====
-- zcastor/anchor/outbox.py: a drain while the chain cannot be reached.
use zcastor_agent.Base.{
  ℕ, zero, suc, ◌+◌, String, ◌≡◌, ◌≢◌, refl, ap, ◌∙◌, true, false, not, some, none, List, [], ◌∷◌,
  All, arith, str_mem, ltb, take, length, keep_if, Bool-cases, inl, inr,
}
use zcastor_agent.Base.Dict.{Dict, lookup, insert, values, lookup-insert_ne}
use zcastor_agent.Anchor.Record.{PendingRecord, dedupe_key, unavailable, Chain, submit}
use zcastor_agent.Anchor.Outbox.{Outbox, Tally, handle, drain_one, drain_all, drain, backoff, tried}
use zcastor_agent.Anchor.Outbox.Replayed.{cores, insert_same}
use zcastor_agent.Anchor.Outbox.Filed.{IsFiled}

-- The attempts that were made on the entries of a queue.
abbrev pub total_attempts : Dict PendingRecord → ℕ
total_attempts [] = 0
total_attempts ((i, e) ∷ d) = e.attempts + total_attempts d

total_attempts-insert :
    (i : String) (e f : PendingRecord) (d : Dict PendingRecord)
    → lookup i d ≡ some e
    → f.attempts ≡ e.attempts + 1
    → total_attempts (insert i f d) ≡ total_attempts d + 1
total_attempts-insert i e f [] h a = cc
total_attempts-insert i e f ((j, w) ∷ d) h a = ground (arith, total_attempts-insert i e f d)

-- The entries whose time has come.
abbrev pub due : ℕ → List PendingRecord → List PendingRecord
due now = keep_if (λ e. not (ltb now e.next_attempt_at))

module _ {W : Type 0} (b : Chain W) where
  -- The chain cannot be reached with the entry, whenever it is tried.
  abbrev pub IsUnreachable : PendingRecord → Type 0
  IsUnreachable e = (w : W) → (why : String) × (w' : W) × (submit b e w ≡ (unavailable why, w'))

  -- The entries are queued, each under an id of its own, and none has landed.
  abbrev Waiting : Dict PendingRecord → List String → List PendingRecord → Type 0
  Waiting d done [] = Unit
  Waiting d done (e ∷ es) =
      (lookup e.id d ≡ some e)
      × (str_mem (dedupe_key e) done ≡ false)
      × IsUnreachable e
      × All (λ x. x.id ≢ e.id) es
      × Waiting d done es

  -- What a part of the drain leaves, after `n` entries that were due.
  record Outlasts (n : ℕ) (s s' : Outbox) (t t' : Tally) : Type 0 where
    limit : s'.max_attempts ≡ s.max_attempts
    queue : cores s'.pending ≡ cores s.pending
    tries : total_attempts s'.pending ≡ total_attempts s.pending + n
    done : s'.done ≡ s.done
    parked : s'.parked_entries ≡ s.parked_entries
    log : s'.log ≡ s.log
    sent : t'.sent_n ≡ t.sent_n
    failed : t'.failed_n ≡ t.failed_n + n

  drain_one-unreachable :
      (now : ℕ) (e : PendingRecord) (s : Outbox) (w w' : W) (t : Tally) (why : String)
      → ltb now e.next_attempt_at ≡ false
      → str_mem (dedupe_key e) s.done ≡ false
      → s.max_attempts ≡ 0
      → submit b e w ≡ (unavailable why, w')
      → drain_one b now e s w t ≡ (
        record s { pending = insert e.id (tried (b.clock w').0 e why) s.pending },
        (b.clock w').1,
        record t { failed_n = t.failed_n + 1 },
      )
  unfolding drain_one handle backoff
  drain_one-unreachable now e s w w' t why d new unlimited h =
      rw d (rw new (rw h (rw unlimited refl)))

  drain_one-early :
      (now : ℕ) (e : PendingRecord) (s : Outbox) (w : W) (t : Tally)
      → ltb now e.next_attempt_at ≡ true
      → drain_one b now e s w t ≡ (s, w, record t { skipped_n = t.skipped_n + 1 })
  unfolding drain_one
  drain_one-early now e s w t h = rw h refl

  Waiting-insert :
      (k : String) (f : PendingRecord) (d : Dict PendingRecord) (done : List String)
      (es : List PendingRecord)
      → All (λ x. x.id ≢ k) es
      → Waiting d done es
      → Waiting (insert k f d) done es
  Waiting-insert k f d done [] ne q = tt
  Waiting-insert k f d done (e ∷ es) ne q =
      (lookup-insert_ne k e.id f d ne.0 ∙ q.0, q.1, q.2, q.3, Waiting-insert k f d done es ne.1 q.4)

  drain_all-next :
      (now : ℕ) (e : PendingRecord) (es : List PendingRecord) (s : Outbox) (w : W) (t : Tally)
      (x : Outbox × W × Tally)
      → drain_one b now e s w t ≡ x
      → drain_all b now (e ∷ es) s w t ≡ drain_all b now es x.0 x.1 x.2
  unfolding drain_all
  drain_all-next now e es s w t x h = ap (λ y. drain_all b now es y.0 y.1 y.2) h

  drain_all-Outlasts :
      (now : ℕ) (es : List PendingRecord) (s : Outbox) (w : W) (t : Tally)
      → s.max_attempts ≡ 0
      → Waiting s.pending s.done es
      → let (s', w', t') = drain_all b now es s w t in Outlasts (length (due now es)) s s' t t'
  drain_all-Outlasts now [] s w t m q =
      unfold drain_all in
      record {
        limit = refl;
        queue = refl;
        tries = omega arith;
        done = refl;
        parked = refl;
        log = refl;
        sent = refl;
        failed = omega arith;
      }
  drain_all-Outlasts now (e ∷ es) s w t m q = elim (Bool-cases (ltb now e.next_attempt_at)) [
    | inl early ↦
        let r = drain_all-Outlasts now es s w (record t { skipped_n = t.skipped_n + 1 }) m q.4 in
        rw (drain_all-next now e es s w t _ (drain_one-early now e s w t early), early)
          (record {
            limit = r.limit;
            queue = r.queue;
            tries = r.tries;
            done = r.done;
            parked = r.parked;
            log = r.log;
            sent = r.sent;
            failed = r.failed;
          })
    | inr late ↦
        let (why, w', h) = q.2 w in
        let f = tried (b.clock w').0 e why in
        let s' = record s { pending = insert e.id f s.pending } in
        let r =
          drain_all-Outlasts now es s' (b.clock w').1 (record t { failed_n = t.failed_n + 1 }) m
            (Waiting-insert e.id f s.pending s.done es q.3 q.4) in
        rw
          (
            drain_all-next now e es s w t _ (drain_one-unreachable now e s w w' t why late q.1 m h),
            late,
          )
          (record {
            limit = r.limit;
            queue = r.queue ∙ insert_same e.id e f s.pending q.0 refl;
            tries = omega (arith, r.tries, total_attempts-insert e.id e f s.pending q.0 refl);
            done = r.done;
            parked = r.parked;
            log = r.log;
            sent = r.sent;
            failed = omega (arith, r.failed);
          })
  ]

  All-take :
      (k : String) (n : ℕ) (es : List PendingRecord)
      → All (λ x. x.id ≢ k) es
      → All (λ x. x.id ≢ k) (take n es)
  All-take k zero es h = tt
  All-take k (suc n) [] h = tt
  All-take k (suc n) (e ∷ es) h = (h.0, All-take k n es h.1)

  Waiting-take :
      (n : ℕ) (d : Dict PendingRecord) (done : List String) (es : List PendingRecord)
      → Waiting d done es
      → Waiting d done (take n es)
  Waiting-take zero d done es q = tt
  Waiting-take (suc n) d done [] q = tt
  Waiting-take (suc n) d done (e ∷ es) q =
      (q.0, q.1, q.2, All-take e.id n es q.3, Waiting-take n d done es q.4)

  Waiting-cons :
      (i : String) (v : PendingRecord) (d : Dict PendingRecord) (done : List String)
      (es : List PendingRecord)
      → All (λ x. x.id ≢ i) es
      → Waiting d done es
      → Waiting ((i, v) ∷ d) done es
  Waiting-cons i v d done [] ne q = tt
  Waiting-cons i v d done (e ∷ es) ne q =
      (ground (arith, q.0, ne.0), q.1, q.2, q.3, Waiting-cons i v d done es ne.1 q.4)

  ids_differ :
      (i : String) (d : Dict PendingRecord)
      → IsFiled d
      → lookup i d ≡ none
      → All (λ x. x.id ≢ i) (values d)
  ids_differ i [] f h = tt
  ids_differ i ((j, v) ∷ d) f h = (λ p. ground (arith, f.0 ∙ p), ids_differ i d f.2 (ground arith))

  -- A queued entry that has not landed and that the chain cannot be reached with.
  abbrev pub IsStuck : List String → PendingRecord → Type 0
  IsStuck done e = (str_mem (dedupe_key e) done ≡ false) × IsUnreachable e

  values-Waiting :
      (d : Dict PendingRecord) (done : List String)
      → IsFiled d
      → All (IsStuck done) (values d)
      → Waiting d done (values d)
  values-Waiting [] done f h = tt
  values-Waiting ((i, v) ∷ d) done f h =
      let ne = ids_differ i d f.2 f.1 in
      (
        ground (arith, f.0),
        h.0.0,
        h.0.1,
        rw (← f.0) ne,
        Waiting-cons i v d done (values d) ne (values-Waiting d done f.2 h.1),
      )

  -- A drain of a queue whose entries have not landed, while the chain cannot be reached with any of
  -- them and no limit is set on the attempts: the queue keeps all its entries, with one attempt more
  -- in all for each that was due among those it took, and nothing is sent, parked or written.
  pub drain-outage :
      (limit : ℕ) (s : Outbox) (w : W)
      → s.max_attempts ≡ 0
      → IsFiled s.pending
      → All (IsStuck s.done) (values s.pending)
      → let tried_n = length (due (b.clock w).0 (take limit (values s.pending))) in
        let (s', w', t) = drain b limit s w in
        (cores s'.pending ≡ cores s.pending)
        × (total_attempts s'.pending ≡ total_attempts s.pending + tried_n)
        × (s'.done ≡ s.done)
        × (s'.parked_entries ≡ s.parked_entries)
        × (s'.log ≡ s.log)
        × (t.sent_n ≡ 0)
        × (t.failed_n ≡ tried_n)
  unfolding drain
  drain-outage limit s w m f h =
      let (now, w') = b.clock w in
      let r =
        drain_all-Outlasts now (take limit (values s.pending)) s w'
          (record { sent_n = 0; failed_n = 0; skipped_n = 0 }) m
          (Waiting-take limit s.pending s.done (values s.pending)
            (values-Waiting s.pending s.done f h)) in
      (r.queue, r.tries, r.done, r.parked, r.log, r.sent, r.failed ∙ omega arith)
