-- ===== src/Tests/Index.antt =====
-- The index over a record that is anchored, resolved and closed.
use zcastor_agent.Base.{
  String, String-discrete, ◌≡◌, refl, ap, sym, ◌≢◌, false, true, List, [], ◌∷◌, some, is_some,
  str_eq,
}
use zcastor_agent.Base.Dict.{lookup}
use zcastor_agent.Anchor.Index.{
  words, Anchoring, load, record_status, record_anchored, set_status, file_under,
}
use zcastor_agent.Anchor.Index.Rows.{field}
use zcastor_agent.Anchor.Index.Reloaded.{
  Write, anchored, moved, history, perform, fresh_index, field-load, record_status-blank,
}

abbrev shard : Anchoring
shard = record {
  signal_id = "s-1";
  registry = "dossiers";
  record_id = 7;
  checksum = "sha256:00ff";
  transaction = "0xab";
  status = "Active";
  registry_id = 1;
  index = 0;
  uri = "";
  kind = "dossier";
  environment = "testnet";
}

abbrev life : List Write
life = anchored shard ∷ moved "s-1" "Resolved" "0xcd" ∷ []

other_field : ◌≢◌ {A = String} "status" "status_transaction"
unfolding String-discrete
other_field p =
    let both : str_eq "status" "status_transaction" ≡ str_eq "status" "status" =
      ap (str_eq "status") (sym p) in
    let differs : str_eq "status" "status_transaction" ≡ false = refl in
    let same : str_eq "status" "status" ≡ true = refl in cc

field-load_example :
    let s = history life fresh_index in
    (field "s-1" "status" (load s.log).by_signal ≡ field "s-1" "status" s.by_signal)
    × (is_some (lookup "s-1" (load s.log).by_signal) ≡ is_some (lookup "s-1" s.by_signal))
field-load_example = field-load life "s-1" "status" other_field

record_status-blank_example :
    let s = history life fresh_index in
    let s' = (record_status "s-1" "Closed" "" s).1 in
    (field "s-1" "status_transaction" s'.by_signal ≡ field "s-1" "status_transaction" s.by_signal)
    × (field "s-1" "status_transaction" (load s'.log).by_signal ≡ some (words ""))
unfolding history perform record_anchored record_status set_status file_under String-discrete
record_status-blank_example = record_status-blank life "s-1" "Closed" refl
