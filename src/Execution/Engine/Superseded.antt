-- ===== src/Execution/Engine/Superseded.antt =====
-- zcastor/execution/engine.py: from the record that lands to the outcome that supersedes it.
use Prim.Native.String.{◌++◌ as append}
use zcastor_agent.Base.Text.{show}
use zcastor_agent.Base.{
  ℕ, String, String-discrete, str_eq, str_mem, Bool, true, false, ◌||◌, Option, none, some, [], ◌∷◌,
  ◌≡◌, refl, ap, ◌∙◌, sym, arith,
}
use zcastor_agent.Base.Dict.{Dict, lookup, insert, lookup-insert_self}
use zcastor_agent.Anchor.Record.{PendingRecord, AnchorResult, dedupe_key}
use zcastor_agent.Anchor.Outbox.{Outbox, Work, enqueue, entry_of, has_key}
use zcastor_agent.Anchor.Index.{
  Value, words, Row, AnchorIndex, record_anchored, record_status, file_under, fields_of,
  anchoring_id, get,
}
use zcastor_agent.Execution.Engine.Resolved.{filed, lookup-record_status}
use zcastor_agent.Execution.Engine.{Ports, Settings, EngineState}
use zcastor_agent.Execution.Engine.Lifecycle.{
  anchoring_of, on_anchored, supersede, resolve_entry, resolve_in, on_outcome_resolved,
  resolution_work, number_or_zero,
}

-- The unit of work has been done, is queued, or is parked.
abbrev pub knows : String → Option Outbox → Bool
knows k none = false
knows k (some b) = str_mem k b.done || (has_key k b.pending || has_key k b.parked_entries)

has_key-insert :
    (id : String) (e : PendingRecord) (d : Dict PendingRecord)
    → has_key (dedupe_key e) (insert id e d) ≡ true
has_key-insert id e [] = ground arith
has_key-insert id e ((j, f) ∷ d) = ground (arith, has_key-insert id e d)

enqueue-knows :
    (id : String) (w : Work) (b : Outbox)
    → knows (dedupe_key (entry_of id w)) (some (enqueue id w b).1) ≡ true
unfolding enqueue
enqueue-knows id w b = ground (arith, has_key-insert id (entry_of id w) b.pending)

-- The key of the update that supersedes a record.
abbrev pub update_key : String → ℕ → String
update_key registry record_id =
    append "update_status|" (append registry (append "|" (append (show record_id) "|Superseded")))

-- The status that the index has for a signal.
abbrev pub status_of : String → Option AnchorIndex → Option Value
status_of id none = none
status_of id (some i) = elim (get id i) [ none ↦ none | some r ↦ lookup "status" r ]

status_of-moved :
    (id : String) (i : AnchorIndex) (v : Value) (r : Row)
    → lookup id i.by_signal ≡ some (("signal_id", v) ∷ r)
    → status_of id (some (record_status id "Superseded" "" i).1) ≡ some (words "Superseded")
unfolding get String-discrete
status_of-moved id i v r h =
    ap (λ o. elim (filed o) [ none ↦ none | some e ↦ lookup "status" e ])
      (lookup-record_status id i (("signal_id", v) ∷ r) h)
    ∙ lookup-insert_self "status" (words "Superseded") r

-- The key of the work that `on_outcome_resolved` queues.
dedupe_key-resolution :
    (unique id registry now : String) (r : Row)
    → dedupe_key (entry_of unique (resolution_work id registry now r))
      ≡ update_key registry (number_or_zero (lookup "record_id" r))
unfolding dedupe_key String-discrete
dedupe_key-resolution unique id registry now r = refl

module _ {W : Type 0} (q : Ports W) (e : Settings) where
  module _ (p : PendingRecord) (r : AnchorResult) (id : String) (i : AnchorIndex)
      (named : lookup "signal_id" p.metadata ≡ some id) (some_id : str_eq id "" ≡ false)
      (fresh : lookup id i.by_signal ≡ none) where
    -- The row of a record that landed for a new signal.
    abbrev landed : Row
    landed = ("signal_id", words id) ∷ fields_of (anchoring_of e p r)

    anchoring_id-signal : anchoring_id (anchoring_of e p r) ≡ id
    anchoring_id-signal = rw (named, some_id) refl

    lookup-anchored : lookup id (record_anchored (anchoring_of e p r) i).by_signal ≡ some landed
    unfolding record_anchored file_under String-discrete
    lookup-anchored = rw (anchoring_id-signal, fresh) (lookup-insert_self id landed i.by_signal)

    get-anchored : get id (record_anchored (anchoring_of e p r) i) ≡ some landed
    unfolding get String-discrete
    get-anchored = rw (get, lookup-anchored) refl

  -- For a record that landed as Active for a signal that the index did not have: once the outcome is
  -- resolved, the index says Superseded, and the outbox has the status update of that record on the
  -- chain done, queued or parked.
  pub superseded-on_anchored :
      (p : PendingRecord) (r : AnchorResult) (id : String) (i : AnchorIndex) (b : Outbox)
      (s : EngineState W)
      → lookup "signal_id" p.metadata ≡ some id
      → str_eq id "" ≡ false
      → lookup id i.by_signal ≡ none
      → p.status ≡ "Active"
      → s.anchor_index ≡ some i
      → s.outbox ≡ some b
      → let s' = on_outcome_resolved q id (on_anchored e p r s) in
        (status_of id s'.anchor_index ≡ some (words "Superseded"))
        × (knows (update_key p.registry r.record_id) s'.outbox ≡ true)
  unfolding on_anchored on_outcome_resolved resolve_in resolve_entry supersede String-discrete
  superseded-on_anchored p r id i b s named filled fresh active si sb =
      let row = landed p r id i named filled fresh in
      let now = (q.now s.world).0 in
      let unique = (q.uuid (q.now s.world).1).0 in
      let on : str_eq p.status "Active" ≡ true = rw active refl in
      rw (si, sb, get-anchored p r id i named filled fresh, on)
        (
          status_of-moved id (record_anchored (anchoring_of e p r) i) (words id)
              (fields_of (anchoring_of e p r)) (lookup-anchored p r id i named filled fresh),
          ap (λ k. knows k (some (enqueue unique (resolution_work id p.registry now row) b).1))
                (sym (dedupe_key-resolution unique id p.registry now row))
              ∙ enqueue-knows unique (resolution_work id p.registry now row) b,
        )
