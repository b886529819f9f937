-- ===== src/Anchor/Record.antt =====
-- zcastor/anchor/base.py: a unit of work for the chain, its identity, and the dispatch to a backend.
use Prim.Native.String.{◌++◌ as append}
use text.Mathlib.Text.{starts_with}
use zcastor_agent.Base.{ℕ, String, str_eq, if◌then◌else◌}
use zcastor_agent.Base.Dict.{Dict}
use zcastor_agent.Base.Text.{show, drop_chars}

-- `PendingRecord`. Times are in one fixed unit, a fraction of a second.
pub record PendingRecord : Type 0 where
  pub id : String
  pub op : String
  pub registry : String
  pub registry_id : ℕ
  pub agent : String
  pub uri : String
  pub checksum : String
  pub checksum_algo : String
  pub metadata : Dict String
  pub status : String
  pub record_id : ℕ
  pub index : ℕ
  pub created_at : String
  pub attempts : ℕ
  pub next_attempt_at : ℕ
  pub last_error : String

-- `PendingRecord.dedupe_key`
unfoldable pub dedupe_key : PendingRecord → String
dedupe_key e =
    if str_eq e.op "update_status"
    then append "update_status|"
        (append e.registry (append "|" (append (show e.record_id) (append "|" e.status))))
    else append "add_record|" (append e.registry (append "|" e.checksum))

-- `AnchorResult`
pub record AnchorResult : Type 0 where
  pub transaction : String
  pub record_id : ℕ
  pub index : ℕ

-- What a call of the chain ends with: a result, `AnchorUnavailable`, or any other exception, with
-- its text.
pub data Answer : Type 0 where
  accepted : AnchorResult → Answer
  unavailable : String → Answer
  failed : String → Answer

-- `AnchorBackend`, the clock and the `on_anchored` hook, none of which this module implements: they
-- may do anything to the world `W`, and no law is asked of them.
pub record Chain (W : Type 0) : Type 0 where
  pub add_record : PendingRecord → W → Answer × W
  pub update_status : PendingRecord → W → Answer × W
  pub clock : W → ℕ × W
  pub on_anchored : PendingRecord → AnchorResult → W → W

-- `AnchorBackend.submit`
unfoldable pub submit : {W : Type 0} → Chain W → PendingRecord → W → Answer × W
submit b e w =
    if str_eq e.op "add_record"
    then b.add_record e w
    else if str_eq e.op "update_status"
    then b.update_status e w
    else (failed (append "AnchorRejected: unknown op " e.op), w)

-- `_bare`
unfoldable pub bare : String → String
bare digest = if starts_with digest "sha256:" then drop_chars 7 digest else digest
