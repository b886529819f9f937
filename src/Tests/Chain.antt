-- ===== src/Tests/Chain.antt =====
-- The chain's client on small data: a transport that counts its calls.
use zcastor_agent.Base.{
  ℕ, ◌+◌, String, String-discrete, ◌≡◌, refl, none, some, length, take, [], ◌∷◌, ◌++◌, arith, ◌⊎◌,
}
use zcastor_agent.Base.Dict.{values}
use zcastor_agent.Base.Text.{lower}
use zcastor_agent.Anchor.Record.{PendingRecord, AnchorResult, dedupe_key, submit}
use zcastor_agent.Anchor.Outbox.{Outbox, drain, drain_all, drain_one, handle, backoff, delay}
use zcastor_agent.Anchor.Outbox.Replayed.{cores}
use zcastor_agent.Anchor.Outbox.Outage.{total_attempts, due}
use zcastor_agent.Anchor.Nvnm.{
  Transport, raised, chain_record, backend, struct_of, rejected, sent_from, send, classify,
  add_record, build_backend,
}
use zcastor_agent.Anchor.Nvnm.Receipt.{Log, record_ids_from_receipt}
use zcastor_agent.Anchor.Nvnm.Decoded.{record_ids-words}
use zcastor_agent.Anchor.Nvnm.Guarded.{IsAddressed, chain_record-IsAddressed}
use zcastor_agent.Anchor.Nvnm.Queued.{drain-transient}

abbrev digest : String
digest = "00112233445566778899aabbccddeeff00112233445566778899aabbccddeeff"

abbrev entry : PendingRecord
entry = record {
  id = "a";
  op = "add_record";
  registry = "afritensor-dossiers";
  registry_id = 2;
  agent = "execution";
  uri = "uri";
  checksum = digest;
  checksum_algo = "";
  metadata = [];
  status = "";
  record_id = 0;
  index = 0;
  created_at = "now";
  attempts = 0;
  next_attempt_at = 0;
  last_error = "";
}

abbrev down : Transport ℕ
down = record { call = λ f n. (raised "TimeoutError" "read timed out", n + 1); dumps = λ d. "{}" }

abbrev hook : PendingRecord → AnchorResult → ℕ → ℕ
hook e r n = n

abbrev clock : ℕ → ℕ × ℕ
clock n = (1000, n)

abbrev queue : Outbox
queue = record {
  log = [];
  max_attempts = 0;
  pending = ("a", entry) ∷ [];
  done = [];
  parked_entries = [];
  completed_lines = 0;
}

chain_record-IsAddressed_example :
    (IsAddressed entry
      × (chain_record down entry 0 ≡ (
          let (s, w') = down.call (add_record (struct_of down entry)) 0 in
          (sent_from "addRecord" 0 s, w'))))
    ⊎ ((why : String) × (chain_record down entry 0 ≡ (rejected why, 0)))
chain_record-IsAddressed_example = chain_record-IsAddressed down entry 0

drain-transient_example :
    let tried_n = length (due 1000 (take 50 (values queue.pending))) in
    let (s', w', n) = drain (backend down clock hook) 50 queue 0 in
    (cores s'.pending ≡ cores queue.pending)
    × (total_attempts s'.pending ≡ total_attempts queue.pending + tried_n)
    × (s'.done ≡ queue.done)
    × (s'.parked_entries ≡ queue.parked_entries)
    × (s'.log ≡ queue.log)
    × (n.sent_n ≡ 0)
    × (n.failed_n ≡ tried_n)
unfolding lower String-discrete
drain-transient_example =
    drain-transient down clock hook 50 queue 0
      (λ f n. ("TimeoutError", "read timed out", n + 1, refl, refl)) refl (refl, refl, tt)
      ((refl, (refl, refl), refl), tt)

-- The entry was due, and is tried again after a while.
tried_once :
    let (s', w', n) = drain (backend down clock hook) 50 queue 0 in
    (total_attempts s'.pending ≡ 1) × (n.failed_n ≡ 1)
unfolding drain drain_all drain_one backend handle backoff delay submit chain_record send sent_from
    classify lower dedupe_key String-discrete
tried_once = (refl, refl)

-- Registry 2, record 300, version 1.
abbrev receipt : Log
receipt = record {
  topics = ("0x1A3295fa8cc0e28c95d21912c9e6958f3bc740231781f7640ad885c972a352fd" ∷ []);
  log_data =
      "0x0000000000000000000000000000000000000000000000000000000000000002000000000000000000000000000000000000000000000000000000000000012c0000000000000000000000000000000000000000000000000000000000000001";
}

-- A log of another event.
abbrev transfer : Log
transfer = record { topics = "0xddf252ad" ∷ []; log_data = "0x" }

record_ids-words_example : record_ids_from_receipt ((transfer ∷ []) ++ receipt ∷ []) ≡ some (300, 1)
record_ids-words_example =
    record_ids-words (transfer ∷ []) receipt [] 2 300 1 [] (refl, tt) refl refl
      (omega arith, (omega arith, (omega arith, tt)))

mainnet_has_no_address : build_backend "mainnet" "" 0 ≡ none
unfolding build_backend String-discrete
mainnet_has_no_address = refl

testnet_address : build_backend "testnet" "" 0 ≡ some ("https://evm.testnet.nvnmchain.io", 787111)
unfolding build_backend String-discrete
testnet_address = refl
