-- ===== src/Anchor/Outbox/Requeue.antt =====
-- zcastor/anchor/outbox.py: the parked entries back in the queue.
use zcastor_agent.Base.{ℕ, ◌+◌, str_mem, List, [], ◌∷◌, if◌then◌else◌}
use zcastor_agent.Base.Dict.{insert, erase, values}
use zcastor_agent.Anchor.Record.{PendingRecord, dedupe_key}
use zcastor_agent.Anchor.Outbox.{Outbox, enqueued, write}

-- One round of the loop of `requeue_parked`, with the count.
unfoldable pub requeue_one : PendingRecord → Outbox × ℕ → Outbox × ℕ
requeue_one e (s, n) =
    let e' = record e { attempts = 0; next_attempt_at = 0 } in
    if str_mem (dedupe_key e) s.done
    then (record s { parked_entries = erase e.id s.parked_entries }, n)
    else (
      record (write (enqueued e') s) {
        pending = insert e.id e' s.pending;
        parked_entries = erase e.id s.parked_entries;
      },
      n + 1,
    )

unfoldable pub requeue_all : List PendingRecord → Outbox × ℕ → Outbox × ℕ
unfolding requeue_one
requeue_all [] sn = sn
requeue_all (e ∷ es) sn = requeue_all es (requeue_one e sn)

-- `requeue_parked`
unfoldable pub requeue_parked : Outbox → Outbox × ℕ
unfolding requeue_all
requeue_parked s = requeue_all (values s.parked_entries) (s, 0)
