-- ===== src/Anchor/Nvnm.antt =====
-- zcastor/anchor/nvnm.py: `NvnmBackend` on a transport, which signs and submits one call and is a
-- parameter (Web3Transport is left out), as are the JSON texts of metadata.
pub mod Receipt
pub mod Decoded
pub mod Guarded
pub mod Queued
use Prim.Native.String.{◌++◌ as append}
use text.Mathlib.Text.{starts_with}
use zcastor_agent.Base.{
  ℕ, String, Bool, true, false, not, ◌||◌, Option, none, some, List, [], ◌∷◌, any,
}
use zcastor_agent.Base.{◌==◌, str_eq, str_mem, opt_or, if◌then◌else◌, length}
use zcastor_agent.Base.Dict.{Dict, lookup}
use zcastor_agent.Base.Text.{lower, show, codes}
use zcastor_agent.Anchor.Record.{PendingRecord, AnchorResult, Answer, accepted, unavailable, failed}
use zcastor_agent.Anchor.Record.{Chain}
use zcastor_agent.Anchor.Index.{take_chars}

-- The struct of `addRecord`.
pub record RecordStruct : Type 0 where
  pub uri : String
  pub checksum : String
  pub checksum_algo : String
  pub metadata : String
  pub timestamp : String
  pub status : String
  pub record_id : ℕ
  pub index : ℕ
  pub is_latest : Bool
  pub registry_id : ℕ

-- A function of the precompile with its arguments.
pub data Call : Type 0 where
  add_record : RecordStruct → Call
  update_record_status :
      (registry_id record_id : ℕ) (checksum : String) (index : ℕ) (status : String) → Call
  add_registry : (name description metadata : String) → Call
  grant_role revoke_role : (registry_id : ℕ) (checksum account role : String) → Call

abbrev pub name_of : Call → String
name_of (add_record r) = "addRecord"
name_of (update_record_status a b c d e) = "updateRecordStatus"
name_of (add_registry a b c) = "addRegistry"
name_of (grant_role a b c d) = "grantRole"
name_of (revoke_role a b c d) = "revokeRole"

-- What `call` gives, each value under its key.
pub record Mined : Type 0 where
  pub tx : Option String
  pub status : Option ℕ
  pub record_id : Option ℕ
  pub index : Option ℕ

-- An exception has the name of its type and its text.
pub data Submitted : Type 0 where
  raised : (kind what : String) → Submitted
  mined : Mined → Submitted

pub record Transport (W : Type 0) : Type 0 where
  pub call : Call → W → Submitted × W
  pub dumps : Dict String → String

-- `marker in text`
abbrev pub contains : String → String → Bool
contains marker String.[] = str_eq marker ""
contains marker (String.◌∷◌ c s) =
    let later = contains marker s in starts_with (String.◌∷◌ c s) marker || later

abbrev pub permanent_markers : List String
permanent_markers =
    "unauthorized" ∷ "not authorized" ∷ "permission" ∷ "role" ∷ "registry not found" ∷ "invalid"
    ∷ "already exists" ∷ "revert" ∷ []

abbrev pub is_permanent : String → Bool
is_permanent what = any (λ m. contains m (lower what)) permanent_markers

-- `AnchorRejected(text)`, as the outbox shows it.
abbrev pub rejected : String → Answer
rejected what = failed (append "AnchorRejected: " what)

-- `_classify`
unfoldable pub classify : String → String → Answer
classify kind what =
    if is_permanent what then rejected what else unavailable (append kind (append ": " what))

-- `a or b`, of a number.
abbrev pub or_id : ℕ → ℕ → ℕ
or_id a b = if a == 0 then b else a

-- `_send`, on what the transport answers.
unfoldable pub sent_from : String → ℕ → Submitted → Answer
sent_from function record_id (raised kind what) = classify kind what
sent_from function record_id (mined m) =
    if opt_or m.status 0 == 1
    then accepted (record {
      transaction = opt_or m.tx "";
      record_id = or_id (opt_or m.record_id 0) record_id;
      index = or_id (opt_or m.index 0) 1;
    })
    else rejected (append function (append " reverted: " (opt_or m.tx "unknown tx")))

module _ {W : Type 0} (t : Transport W) where
  unfoldable pub send : Call → ℕ → W → Answer × W
  send f record_id w = let (r, w') = t.call f w in (sent_from (name_of f) record_id r, w')

  -- `_metadata`
  unfoldable pub metadata_text : Dict String → String → String
  metadata_text [] fallback = t.dumps (("label", fallback) ∷ [])
  metadata_text (m ∷ ms) fallback = t.dumps (m ∷ ms)

  abbrev pub struct_of : PendingRecord → RecordStruct
  struct_of e = record {
    uri = e.uri;
    checksum = e.checksum;
    checksum_algo = if str_eq e.checksum_algo "" then "sha256" else e.checksum_algo;
    metadata = metadata_text e.metadata (take_chars 16 e.checksum);
    timestamp = "";
    status = if str_eq e.status "" then "Active" else e.status;
    record_id = 0;
    index = 0;
    is_latest = false;
    registry_id = e.registry_id;
  }

  -- `NvnmBackend.add_record`
  unfoldable pub chain_record : PendingRecord → W → Answer × W
  chain_record e w =
      let out = send (add_record (struct_of e)) 0 w in
      if str_eq e.checksum ""
      then (rejected "record has no checksum", w)
      else if e.registry_id == 0
      then (rejected (append "record has no numeric registry_id: " e.registry), w)
      else if not (length (codes e.checksum) == 64)
      then (
        rejected (append "checksum must be 64 hex chars, got " (show (length (codes e.checksum)))),
        w,
      )
      else out

  -- `NvnmBackend.update_status`
  unfoldable pub chain_status : PendingRecord → W → Answer × W
  chain_status e w =
      let out =
        send (update_record_status e.registry_id e.record_id e.checksum e.index e.status)
          e.record_id w in
      if e.record_id == 0
      then (rejected "status update has no record_id", w)
      else if e.registry_id == 0
      then (rejected "status update has no registry_id", w)
      else out

  -- `NvnmBackend.add_registry`
  unfoldable pub create_registry : String → String → String → W → Answer × W
  create_registry name description metadata w = send (add_registry name description metadata) 0 w

  -- `NvnmBackend.grant_role` and `revoke_role`
  unfoldable pub grant : ℕ → String → String → String → W → Answer × W
  grant registry_id account role checksum w =
      let out = send (grant_role registry_id checksum account role) 0 w in
      if str_mem role ("admin" ∷ "editor" ∷ [])
      then out
      else (rejected (append "unknown role " role), w)

  unfoldable pub revoke : ℕ → String → String → String → W → Answer × W
  revoke registry_id account role checksum w =
      send (revoke_role registry_id checksum account role) 0 w

  -- The backend, with the clock and the hook of an outbox.
  unfoldable pub backend : (W → ℕ × W) → (PendingRecord → AnchorResult → W → W) → Chain W
  backend clock hook = record {
    add_record = chain_record;
    update_status = chain_status;
    clock = clock;
    on_anchored = hook;
  }

-- `ENVIRONMENTS`: the chain's id and its address.
abbrev pub environments : Dict (ℕ × String)
environments =
    ("testnet", (787111, "https://evm.testnet.nvnmchain.io")) ∷ ("mainnet", (1611, "")) ∷ []

abbrev or_text : String → String → String
or_text a b = if str_eq a "" then b else a

-- `build_backend`: the address and the id that the transport is built with, none where it raises.
unfoldable pub build_backend : String → String → ℕ → Option (String × ℕ)
build_backend environment rpc_url chain_id =
    let env = opt_or (lookup environment environments) (0, "") in
    let rpc = or_text rpc_url env.1 in
    let cid = or_id chain_id env.0 in if str_eq rpc "" || cid == 0 then none else some (rpc, cid)
