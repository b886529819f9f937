-- ===== src/Tests/Anchor.antt =====
-- The outbox over a chain that accepts every other submission.
use zcastor_agent.Base.{
  ℕ, ◌+◌, ◌*◌, ◌%◌, ◌==◌, String, str_mem, ◌≡◌, refl, true, List, [], ◌∷◌, if◌then◌else◌,
}
use zcastor_agent.Anchor.Record.{PendingRecord, Answer, accepted, unavailable, Chain}
use zcastor_agent.Anchor.Outbox.{Outbox, Work, entry_of, empty, load, delay}
use zcastor_agent.Anchor.Outbox.Replayed.{cores}
use zcastor_agent.Anchor.Outbox.History.{Op, work, drained, requeued, history}
use zcastor_agent.Anchor.Outbox.Recovery.{history-recovered}
use zcastor_agent.Anchor.Outbox.Once.{recording, IsDistinct, history-IsDistinct}
use zcastor_agent.Anchor.Outbox.Compaction.{compact, compact_forgets_parked}

-- The world counts the calls; the chain is unavailable on the first call of two.
abbrev flaky : PendingRecord → ℕ → Answer × ℕ
flaky e n = (
  if n % 2 == 0
      then unavailable "timeout"
      else accepted (record { transaction = "0xab"; record_id = 7; index = 0 }),
  n + 1,
)

abbrev chain : Chain ℕ
chain = record {
  add_record = flaky;
  update_status = flaky;
  clock = λ n. (n * 1000000, n);
  on_anchored = λ e r n. n;
}

abbrev shard : Work
shard = record {
  op = "add_record";
  registry = "decisions";
  registry_id = 1;
  agent = "0x01";
  uri = "ar://shard";
  checksum = "sha256:00ff";
  metadata = [];
  status = "";
  record_id = 0;
  index = 0;
  created_at = "2026-01-01T00:00:00Z";
}

-- The same work is handed over twice, and drained until it lands.
abbrev day : List Op
day = work "a" shard ∷ drained 50 ∷ work "b" shard ∷ drained 50 ∷ requeued ∷ work "c" shard ∷ []

history-IsDistinct_example :
    let (s, w) = history (recording chain) day (empty 0) (0, []) in
    IsDistinct w.1 × ((k : String) → str_mem k w.1 ≡ true → str_mem k s.done ≡ true)
history-IsDistinct_example = history-IsDistinct chain day 0 0

history-recovered_example :
    let s = (history chain day (empty 1) 0).0 in
    let r = load s.max_attempts s.log in
    (cores r.pending ≡ cores s.pending) × ((k : String) → str_mem k r.done ≡ str_mem k s.done)
history-recovered_example = history-recovered chain day 1 0

abbrev entry : PendingRecord
entry = entry_of "a" shard

abbrev stuck : Outbox
stuck = record (empty 1) { parked_entries = ("a", entry) ∷ [] }

compact_forgets_parked_example : (load 1 (compact stuck).log).parked_entries ≡ []
compact_forgets_parked_example = compact_forgets_parked stuck refl

-- The first delays, and the first that is maximal.
first_delays : (delay 1 ≡ 5000) × (delay 2 ≡ 10000) × (delay 8 ≡ 640000) × (delay 9 ≡ 900000)
unfolding delay
first_delays = (refl, refl, refl, refl)
