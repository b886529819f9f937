-- ===== src/Anchor/Outbox.antt =====
-- zcastor/anchor/outbox.py: the durable outbox. The file is the list of its parsed lines, and the
-- set `_done` is a list without repeats.
pub mod Backoff
pub mod Replayed
pub mod Requeue
pub mod Operations
pub mod Filed
pub mod History
pub mod Recovery
pub mod Once
pub mod Outage
pub mod Compaction
use Prim.Native.Nat.{Ordering}
use Prim.Native.String.{◌++◌ as append, compare as compare_text}
use mathlib.Core.List.{foldl}
use zcastor_agent.Base.{
  ℕ, zero, suc, ◌+◌, ◌-◌, ◌*◌, ◌^◌, min, String, str_eq, str_mem, Bool, true, false, not, ◌&&◌,
  Option, none, some, List, [], ◌∷◌, ◌++◌, map, any, take, length, ltb, leb, ◌==◌, if◌then◌else◌,
  is_some,
}
use zcastor_agent.Base.Dict.{Dict, lookup, insert, erase, values}
use zcastor_agent.Base.Text.{show}
use zcastor_agent.Anchor.Record.{
  PendingRecord, dedupe_key, AnchorResult, Answer, accepted, unavailable, failed, Chain, submit,
  bare,
}

-- A line of the file; a torn line does not parse.
pub data Line : Type 0 where
  enqueued : PendingRecord → Line
  sent : (id dedupe tx : String) (record_id at : ℕ) → Line
  parked : (id error : String) (at : ℕ) → Line
  torn : Line

-- `Outbox`, with its file.
pub record Outbox : Type 0 where
  pub log : List Line
  pub max_attempts : ℕ
  pub pending : Dict PendingRecord
  pub done : List String
  pub parked_entries : Dict PendingRecord
  pub completed_lines : ℕ

-- `self._done.add(k)`
abbrev pub add : String → List String → List String
add k done = if str_mem k done then done else k ∷ done

-- `_append`
abbrev pub write : Line → Outbox → Outbox
write l s = record s { log = s.log ++ l ∷ [] }

-- `_replay`, with the entry that `_pending.pop` returns as an argument.
abbrev pub replay_sent : Option PendingRecord → String → String → Outbox → Outbox
replay_sent (some e) id dedupe s = record s {
  pending = erase id s.pending;
  done = add (dedupe_key e) s.done;
  completed_lines = s.completed_lines + 1;
}
replay_sent none id dedupe s = record s {
  done = if str_eq dedupe "" then s.done else add dedupe s.done;
  completed_lines = s.completed_lines + 1;
}

abbrev pub replay_parked : Option PendingRecord → String → String → Outbox → Outbox
replay_parked (some e) id error s = record s {
  pending = erase id s.pending;
  parked_entries = insert id (record e { last_error = error }) s.parked_entries;
  completed_lines = s.completed_lines + 1;
}
replay_parked none id error s = record s { completed_lines = s.completed_lines + 1 }

unfoldable pub replay : Outbox → Line → Outbox
replay s (enqueued e) =
    if str_mem (dedupe_key e) s.done then s else record s { pending = insert e.id e s.pending }
replay s (sent id dedupe tx record_id at) = replay_sent (lookup id s.pending) id dedupe s
replay s (parked id error at) = replay_parked (lookup id s.pending) id error s
replay s torn = s

abbrev pub empty : ℕ → Outbox
empty limit = record {
  log = [];
  max_attempts = limit;
  pending = [];
  done = [];
  parked_entries = [];
  completed_lines = 0;
}

unfoldable pub replay_all : Outbox → List Line → Outbox
unfolding replay
replay_all s [] = s
replay_all s (l ∷ ls) = replay_all (replay s l) ls

-- `Outbox.__init__` over an existing file: `_load`.
unfoldable pub load : ℕ → List Line → Outbox
unfolding replay_all
load limit log = record (replay_all (empty limit) log) { log = log }

-- The arguments of `enqueue`.
pub record Work : Type 0 where
  pub op : String
  pub registry : String
  pub registry_id : ℕ
  pub agent : String
  pub uri : String
  pub checksum : String
  pub metadata : Dict String
  pub status : String
  pub record_id : ℕ
  pub index : ℕ
  pub created_at : String

abbrev pub entry_of : String → Work → PendingRecord
entry_of id w = record {
  id = id;
  op = w.op;
  registry = w.registry;
  registry_id = w.registry_id;
  agent = w.agent;
  uri = w.uri;
  checksum = bare w.checksum;
  checksum_algo = "sha256";
  metadata = w.metadata;
  status = w.status;
  record_id = w.record_id;
  index = w.index;
  created_at = w.created_at;
  attempts = 0;
  next_attempt_at = 0;
  last_error = "";
}

abbrev pub has_key : String → Dict PendingRecord → Bool
has_key k d = any (λ e. str_eq (dedupe_key e) k) (values d)

-- `enqueue`, with the id that `uuid4` gives.
unfoldable pub enqueue : String → Work → Outbox → Option PendingRecord × Outbox
enqueue id w s =
    let e = entry_of id w in
    let key = dedupe_key e in
    if str_mem key s.done
    then (none, s)
    else if has_key key s.pending
    then (none, s)
    else if has_key key s.parked_entries
    then (none, s)
    else (some e, record (write (enqueued e) s) { pending = insert e.id e s.pending })

-- `_park`
unfoldable pub park : ℕ → PendingRecord → String → Outbox → Outbox
park at e error s = record (write (parked e.id error at) s) {
  pending = erase e.id s.pending;
  parked_entries = insert e.id (record e { last_error = error }) s.parked_entries;
}

-- The seconds are in the unit of the clock, `second` of them.
abbrev pub second : ℕ
second = 1000

abbrev pub base_backoff : ℕ
base_backoff = 5 * second

abbrev pub max_backoff : ℕ
max_backoff = 900 * second

-- The delay after the given number of attempts.
unfoldable pub delay : ℕ → ℕ
delay attempts = min (base_backoff * 2 ^ (attempts - 1)) max_backoff

-- Whether the entry has used up its attempts.
abbrev pub gives_up : PendingRecord → Outbox → Bool
gives_up e s = not (s.max_attempts == 0) && leb s.max_attempts (e.attempts + 1)

-- The entry after one more attempt, which failed.
abbrev pub tried : ℕ → PendingRecord → String → PendingRecord
tried now e error = record e {
  attempts = e.attempts + 1;
  last_error = error;
  next_attempt_at = now + delay (e.attempts + 1);
}

-- `_backoff`, at the two readings of the clock. The entry is the object that `_pending` holds, so
-- that writing to it writes there.
unfoldable pub backoff : ℕ → ℕ → PendingRecord → String → Outbox → Outbox
unfolding park
backoff now at e error s =
    let e' = tried now e error in
    let s' = record s { pending = insert e.id e' s.pending } in
    if gives_up e s
    then park at e'
        (append "gave up after " (append (show e'.attempts) (append " attempts: " error))) s'
    else s'

-- `_complete`, but for the hook.
unfoldable pub complete : ℕ → PendingRecord → AnchorResult → Outbox → Outbox
complete at e r s = record (write (sent e.id (dedupe_key e) r.transaction r.record_id at) s) {
  pending = erase e.id s.pending;
  done = add (dedupe_key e) s.done;
  completed_lines = s.completed_lines + 1;
}

-- The entry's work has landed already: it leaves the queue.
unfoldable pub drop_done : ℕ → PendingRecord → Outbox → Outbox
drop_done at e s =
    write (sent e.id (dedupe_key e) "duplicate" 0 at) (record s { pending = erase e.id s.pending })

-- `sent`, `failed` and `skipped` of a call of `drain`.
pub record Tally : Type 0 where
  pub sent_n : ℕ
  pub failed_n : ℕ
  pub skipped_n : ℕ

module _ {W : Type 0} (b : Chain W) where
  -- The `try` of `drain`, on what the backend answered.
  unfoldable pub handle : PendingRecord → Answer → W → Outbox → Tally → Outbox × W × Tally
  unfolding complete backoff park
  handle e (accepted r) w s t =
      let (at, w') = b.clock w in
      (complete at e r s, b.on_anchored e r w', record t { sent_n = t.sent_n + 1 })
  handle e (unavailable error) w s t =
      let (now, w') = b.clock w in
      let (at, w'') = b.clock w' in
      (
        backoff now at e error s,
        if gives_up e s then w'' else w',
        record t { failed_n = t.failed_n + 1 },
      )
  handle e (failed error) w s t =
      let (at, w') = b.clock w in (park at e error s, w', record t { failed_n = t.failed_n + 1 })

  -- One round of the loop of `drain`.
  unfoldable pub drain_one : ℕ → PendingRecord → Outbox → W → Tally → Outbox × W × Tally
  unfolding handle drop_done
  drain_one now e s w t =
      if ltb now e.next_attempt_at
      then (s, w, record t { skipped_n = t.skipped_n + 1 })
      else if str_mem (dedupe_key e) s.done
      then (drop_done (b.clock w).0 e s, (b.clock w).1, record t { skipped_n = t.skipped_n + 1 })
      else handle e (submit b e w).0 (submit b e w).1 s t

  unfoldable pub drain_all : ℕ → List PendingRecord → Outbox → W → Tally → Outbox × W × Tally
  unfolding drain_one
  drain_all now [] s w t = (s, w, t)
  drain_all now (e ∷ es) s w t =
      let (s', w', t') = drain_one now e s w t in drain_all now es s' w' t'

  -- `drain`: the loop is over a copy of the first `limit` pending entries.
  unfoldable pub drain : ℕ → Outbox → W → Outbox × W × Tally
  unfolding drain_all
  drain limit s w =
      let (now, w') = b.clock w in
      drain_all now (take limit (values s.pending)) s w'
        (record { sent_n = 0; failed_n = 0; skipped_n = 0 })
