-- ===== src/Record/Rollover.antt =====
-- zcastor/record/rollover.py: the log of the day, and its publication at the boundary. The publisher
-- and the clock are parameters.
pub mod Complete
use zcastor_agent.Base.{
  ℕ, String, str_eq, Bool, true, false, not, Option, none, some, List, [], ◌∷◌, if◌then◌else◌,
  is_some, length,
}
use zcastor_agent.Base.Dict.{Dict, lookup}
use zcastor_agent.Anchor.Outbox.{Outbox, Work, enqueue}
use zcastor_agent.Anchor.Index.{
  Value, words, number, Row, AnchorIndex, record_status, get_by_checksum, text_or,
}
use zcastor_agent.Record.DecisionLog.{DecisionLog, BuiltLog, new_log, build}

-- What `publish_decision_log` returns.
pub record Published : Type 0 where
  pub uri : String
  pub checksum : String
  pub supersedes : Option String

-- The publisher, none where it raises, the day of the clock, and the ids of the outbox.
pub record Press (W : Type 0) : Type 0 where
  pub publish_decision_log : BuiltLog → W → Option Published × W
  pub utc_day : W → String × W
  pub uuid : W → String × W

-- `SessionRollover`, with the world.
pub record SessionRollover (W : Type 0) : Type 0 where
  pub policy_version : String
  pub process_hash : String
  pub registry : String
  pub registry_id : ℕ
  pub agent : String
  pub day : String
  pub log : DecisionLog
  pub outbox : Option Outbox
  pub anchor_index : Option AnchorIndex
  pub world : W

-- `int(entry.get(k) or 0)`, of a number.
abbrev pub number_of : Option Value → ℕ
number_of (some (number n)) = n
number_of _ = 0

abbrev pub has_status : Row → Bool
has_status r = str_eq (text_or (lookup "status" r) "") "Active"

-- The arguments of `enqueue` in `_supersede`.
abbrev pub replacement_work : String → String → String → Row → Work
replacement_work registry agent day r = record {
  op = "update_status";
  registry = registry;
  registry_id = number_of (lookup "registry_id" r);
  agent = agent;
  uri = "";
  checksum = "";
  metadata = ("kind", "status") ∷ ("session_date", day) ∷ ("reason", "republished") ∷ [];
  status = "Superseded";
  record_id = number_of (lookup "record_id" r);
  index = 0;
  created_at = "";
}

-- The arguments of `enqueue` in `close`, without the totals in the metadata.
abbrev pub log_work : {W : Type 0} → SessionRollover W → Published → Work
log_work s p = record {
  op = "add_record";
  registry = s.registry;
  registry_id = s.registry_id;
  agent = s.agent;
  uri = p.uri;
  checksum = p.checksum;
  metadata =
      ("kind", "decision_log")
      ∷ ("session_date", s.day)
      ∷ ("supersedes", elim p.supersedes [ some c ↦ c | none ↦ "" ])
      ∷ ("policy", s.process_hash)
      ∷ [];
  status = "Active";
  record_id = 0;
  index = 0;
  created_at = s.day;
}

-- What `close` returns, without the totals and what was published.
pub record Closed : Type 0 where
  pub day : String
  pub decisions : ℕ
  pub queued : Bool

module _ {W : Type 0} (q : Press W) where
  -- `_supersede` on the two fields that the row must have: `false` is a `KeyError`, after the update
  -- was queued where it is the id that is missing.
  unfoldable pub supersede_row :
      Option Value
      → Option Value
      → Row
      → Outbox
      → AnchorIndex
      → SessionRollover W
      → Bool × SessionRollover W
  supersede_row none id r b i s = (false, s)
  supersede_row (some registry) id r b i s =
      let (unique, w) = q.uuid s.world in
      let work = replacement_work (text_or (some registry) "") s.agent s.day r in
      let s' = record s { outbox = some (enqueue unique work b).1; world = w } in
      elim id [
        | none ↦ (false, s')
        | some v ↦ (
          true,
          record s' {
            anchor_index = some (record_status (text_or (some v) "") "Superseded" "" i).1;
          },
        )
      ]

  unfoldable pub supersede_found :
      Option Row → Outbox → AnchorIndex → SessionRollover W → Bool × SessionRollover W
  unfolding supersede_row
  supersede_found none b i s = (true, s)
  supersede_found (some r) b i s =
      let moved = supersede_row (lookup "registry" r) (lookup "signal_id" r) r b i s in
      if has_status r then moved else (true, s)

  -- `_supersede`
  unfoldable pub supersede :
      Option String
      → Option AnchorIndex
      → Option Outbox
      → SessionRollover W
      → Bool × SessionRollover W
  unfolding supersede_found
  supersede (some c) (some i) (some b) s =
      let found = supersede_found (get_by_checksum c i) b i s in
      if str_eq c "" then (true, s) else found
  supersede (some c) (some i) none s = (true, s)
  supersede (some c) none b s = (true, s)
  supersede none i b s = (true, s)

  -- The record of the log is queued, if there is an outbox.
  unfoldable pub queue_log :
      Option Outbox → Published → SessionRollover W → Bool × SessionRollover W
  queue_log none p s = (false, s)
  queue_log (some b) p s =
      let (unique, w) = q.uuid s.world in
      let (e, b') = enqueue unique (log_work s p) b in
      (is_some e, record s { outbox = some b'; world = w })

  -- `self.day` and `self.log` of the next day.
  abbrev pub start_day : SessionRollover W → SessionRollover W
  start_day s =
      let (day, w) = q.utc_day s.world in
      record s { day = day; log = new_log day s.agent; world = w }

  -- `close` once `_supersede` has returned.
  unfoldable pub close_with :
      Bool → Published → SessionRollover W → Option Closed × SessionRollover W
  unfolding queue_log
  close_with start_new p s =
      let (queued, s') = queue_log s.outbox p s in
      let result : Closed = record {
        day = s.day;
        decisions = length s.log.entries;
        queued = queued;
      } in
      (some result, if start_new then start_day s' else s')

  -- `close` on what the publisher answers: nothing where it raised, or where a `KeyError` ends it.
  unfoldable pub close_published :
      Bool → Option Published → SessionRollover W → Option Closed × SessionRollover W
  unfolding supersede close_with
  close_published start_new none s = (none, s)
  close_published start_new (some p) s =
      let (goes_on, s') = supersede p.supersedes s.anchor_index s.outbox s in
      let rest = close_with start_new p s' in if goes_on then rest else (none, s')

  -- `close`
  unfoldable pub close_log : Bool → SessionRollover W → Option Closed × SessionRollover W
  unfolding close_published
  close_log start_new s =
      let (o, w) = q.publish_decision_log (build s.policy_version s.process_hash s.log) s.world in
      close_published start_new o (record s { world = w })

  -- `tick`
  unfoldable pub tick_day : SessionRollover W → Option Closed × SessionRollover W
  unfolding close_log
  tick_day s =
      let (day, w) = q.utc_day s.world in
      let closed = close_log true (record s { world = w }) in
      if str_eq day s.day then (none, record s { world = w }) else closed
