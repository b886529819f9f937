-- ===== src/Execution/Engine/Lifecycle.antt =====
-- zcastor/execution/engine.py: what follows later from a decision, a fill of the watcher, a record that
-- landed, and an outcome.
use zcastor_agent.Base.{ℕ, String, str_eq, Bool, Option, none, some, [], ◌∷◌, if◌then◌else◌, opt_or}
use zcastor_agent.Base.Dict.{lookup}
use zcastor_agent.Anchor.Record.{PendingRecord, AnchorResult}
use zcastor_agent.Anchor.Outbox.{Outbox, Work, enqueue}
use zcastor_agent.Anchor.Index.{
  Value, number, Row, AnchorIndex, Anchoring, record_anchored, record_status, get, text_or,
}
use zcastor_agent.Execution.Engine.{Ports, Settings, EngineState}

-- `record_anchored` with the arguments of `on_anchored`.
abbrev pub anchoring_of : Settings → PendingRecord → AnchorResult → Anchoring
anchoring_of e p r = record {
  signal_id = opt_or (lookup "signal_id" p.metadata) "";
  registry = p.registry;
  record_id = r.record_id;
  checksum = p.checksum;
  transaction = r.transaction;
  status = p.status;
  registry_id = p.registry_id;
  index = r.index;
  uri = p.uri;
  kind = opt_or (lookup "kind" p.metadata) "dossier";
  environment = e.environment;
}

-- `int(entry.get(k) or 0)`, of a number.
abbrev pub number_or_zero : Option Value → ℕ
number_or_zero (some (number n)) = n
number_or_zero _ = 0

-- The arguments of `enqueue` in `on_outcome_resolved`, without the outcome's text and flag.
abbrev pub resolution_work : String → String → String → Row → Work
resolution_work id registry now r = record {
  op = "update_status";
  registry = registry;
  registry_id = number_or_zero (lookup "registry_id" r);
  agent = "oracle";
  uri = "";
  checksum = "";
  metadata = ("signal_id", id) ∷ ("kind", "status") ∷ [];
  status = "Superseded";
  record_id = number_or_zero (lookup "record_id" r);
  index = number_or_zero (lookup "index" r);
  created_at = now;
}

-- `entry.get("status") != STATUS_ACTIVE`, turned round.
abbrev pub is_active : Row → Bool
is_active r = str_eq (text_or (lookup "status" r) "") "Active"

module _ {W : Type 0} (e : Settings) where
  -- `on_anchored`
  unfoldable pub on_anchored : PendingRecord → AnchorResult → EngineState W → EngineState W
  on_anchored p r s = record s {
    anchor_index = elim s.anchor_index [
      | none ↦ none
      | some i ↦ some (record_anchored (anchoring_of e p r) i)
    ];
  }

module _ {W : Type 0} (q : Ports W) where
  -- `on_outcome_resolved` on an entry that is active; a row without a registry ends it.
  unfoldable pub supersede :
      Option Value → String → Row → Outbox → AnchorIndex → EngineState W → EngineState W
  supersede none id r b i s = s
  supersede (some registry) id r b i s =
      let (now, w) = q.now s.world in
      let (unique, w') = q.uuid w in
      record s {
        outbox = some (enqueue unique (resolution_work id (text_or (some registry) "") now r) b).1;
        anchor_index = some (record_status id "Superseded" "" i).1;
        world = w';
      }

  -- `on_outcome_resolved` on the entry of the signal.
  unfoldable pub resolve_entry :
      Option Row → String → Outbox → AnchorIndex → EngineState W → EngineState W
  unfolding supersede
  resolve_entry none id b i s = s
  resolve_entry (some r) id b i s =
      let done = supersede (lookup "registry" r) id r b i s in if is_active r then done else s

  -- `on_outcome_resolved`, for the signal of the outcome.
  unfoldable pub resolve_in :
      Option AnchorIndex → Option Outbox → String → EngineState W → EngineState W
  unfolding resolve_entry
  resolve_in (some i) (some b) id s = resolve_entry (get id i) id b i s
  resolve_in (some i) none id s = s
  resolve_in none b id s = s

  unfoldable pub on_outcome_resolved : String → EngineState W → EngineState W
  unfolding resolve_in
  on_outcome_resolved id s = resolve_in s.anchor_index s.outbox id s
