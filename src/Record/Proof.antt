-- ===== src/Record/Proof.antt =====
-- zcastor/record/proof.py: the proofs of origin, process and state. The policy file's bytes are a
-- text.
use zcastor_agent.Base.{String, Option, none, some, if◌then◌else◌, str_eq}
use zcastor_agent.Base.Int.{ℤ}
use zcastor_agent.Record.Canonical.{
  Json, Members, no_members, member, name, object, string, checksum,
}
use zcastor_agent.Record.Canonical.{checksum_bytes, canonical_bytes}

-- None where a value is refused.
pub record ProofSet : Type 0 where
  pub origin : Option String
  pub process : Option String
  pub state : Option String

-- `code_version or "unknown"`
abbrev pub version_text : Option String → String
version_text none = "unknown"
version_text (some v) = if str_eq v "" then "unknown" else v

-- The arguments of `state_hash`; those with a default are null or the empty text there.
pub record State : Type 0 where
  pub tick_time : Json
  pub ask : Json
  pub bid : Json
  pub spread_pts : Json
  pub balance : Json
  pub free_margin : Json
  pub open_positions : Json
  pub session : String
  pub session_open : Json

abbrev pub state_object : State → Json
state_object s = object (
    member (name "tick_time") s.tick_time (
      member (name "ask") s.ask (
        member (name "bid") s.bid (
          member (name "spread_pts") s.spread_pts (
            member (name "balance") s.balance (
              member (name "free_margin") s.free_margin (
                member (name "open_positions") s.open_positions (
                  member (name "session") (string s.session)
                    (member (name "session_open") s.session_open no_members)))))))))

abbrev pub process_object : Members → Option String → Json
process_object policy code_version = object (
    member (name "policy") (object policy)
      (member (name "code_version") (string (version_text code_version)) no_members))

module _ (quote : String → String) (digits : ℤ → String) (sha256 : String → String) where
  unfoldable pub origin_hash : Members → Option String
  origin_hash payload = checksum quote digits sha256 (object payload)

  unfoldable pub process_hash : Members → Option String → Option String
  process_hash policy code_version =
      checksum quote digits sha256 (process_object policy code_version)

  unfoldable pub process_hash_from_file : String → Option String → Option String
  process_hash_from_file file code_version = checksum quote digits sha256 (
      object (
        member (name "policy_file") (string (checksum_bytes sha256 file))
          (member (name "code_version") (string (version_text code_version)) no_members)))

  unfoldable pub state_hash : State → Option String
  state_hash s = checksum quote digits sha256 (state_object s)

  unfoldable pub build : Members → Members → State → Option String → ProofSet
  build payload policy state code_version = record {
    origin = origin_hash payload;
    process = process_hash policy code_version;
    state = state_hash state;
  }

-- `payload_bytes`
unfoldable pub payload_bytes : (String → String) → (ℤ → String) → Members → Option String
payload_bytes quote digits payload = canonical_bytes quote digits (object payload)
