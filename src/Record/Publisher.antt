-- ===== src/Record/Publisher.antt =====
-- zcastor/record/publisher.py: the documents, each under a path that its checksum names, and the
-- manifest. The documents, their checksum and the template of an address are parameters.
use Prim.Native.String.{◌++◌ as append}
use zcastor_agent.Base.{
  ℕ, String, str_eq, Bool, Option, none, some, List, [], ◌∷◌, ◌++◌, any, if◌then◌else◌, opt_or,
  is_some,
}
use zcastor_agent.Base.Dict.{Dict, lookup, insert}
use zcastor_agent.Anchor.Index.{without_tags, take_chars}

-- An entry of the manifest.
pub record Version : Type 0 where
  pub checksum : String
  pub path : String
  pub uri : String

abbrev pub Manifest : Type 0
Manifest = Dict (Dict (List Version))

-- `Publisher`, with the files under its root; the manifest is `none` where it is missing or does not
-- parse.
pub record Publisher (D : Type 0) : Type 0 where
  pub uri_template : String
  pub is_public : Bool
  pub holder : String
  pub files : Dict D
  pub manifest_file : Option Manifest

-- What publishing returns.
pub record Document : Type 0 where
  pub path : String
  pub checksum : String
  pub uri : String

-- `_short`, for any number of characters.
abbrev pub short_of : ℕ → String → String
short_of n checksum = take_chars n (without_tags 0 checksum)

-- `_relative`
unfoldable pub relative : (kind name day checksum : String) → String
relative kind name day checksum =
    let stem =
      if str_eq checksum "" then name else append name (append "." (short_of 8 checksum)) in
    let file = append stem ".json" in
    if str_eq day ""
    then append kind (append "/" file)
    else append kind (append "/" (append day (append "/" file)))

-- `manifest`
abbrev pub manifest_of : {D : Type 0} → Publisher D → Manifest
manifest_of s = opt_or s.manifest_file (("trades", []) ∷ ("decisions", []) ∷ [])

abbrev pub versions : String → String → Manifest → List Version
versions kind key m = opt_or (lookup key (opt_or (lookup kind m) [])) []

-- `entries[-1]`, if there is one.
abbrev pub newest : List Version → Option Version
newest [] = none
newest (v ∷ vs) = elim (newest vs) [ none ↦ some v | some u ↦ some u ]

abbrev pub checksum_of : Option Version → Option String
checksum_of none = none
checksum_of (some v) = some v.checksum

module _ {D : Type 0} (format : String → String → String) where
  -- `uri_for`
  unfoldable pub uri_for : String → Publisher D → String
  uri_for path s =
      if s.is_public
      then if str_eq s.uri_template "" then "" else format s.uri_template path
      else append "held://" (append s.holder (append "/" path))

  -- `_record_in_manifest`, with the checksum that the entry replaces. Content that is there already
  -- leaves the file as it is.
  unfoldable pub record_in_manifest :
      (kind key path checksum : String) → Publisher D → Option String × Publisher D
  unfolding uri_for
  record_in_manifest kind key path checksum s =
      let m = manifest_of s in
      let entries = versions kind key m in
      let entry : Version = record { checksum = checksum; path = path; uri = uri_for path s } in
      let keys = insert key (entries ++ entry ∷ []) (opt_or (lookup kind m) []) in
      if any (λ v. str_eq v.checksum checksum) entries
      then (none, s)
      else (checksum_of (newest entries), record s { manifest_file = some (insert kind keys m) })

  -- `write_canonical`
  abbrev pub write_file : String → D → Publisher D → Publisher D
  write_file path d s = record s { files = insert path d s.files }

  abbrev pub document : String → String → Publisher D → Document
  document path checksum s = record { path = path; checksum = checksum; uri = uri_for path s }

  -- `publish_dossier`, of the document without its provenance.
  unfoldable pub publish_dossier :
      (digest : D → String) → (signal_id day : String) → D → Publisher D → Document × Publisher D
  unfolding relative record_in_manifest
  publish_dossier digest signal_id day d s =
      let checksum = digest d in
      let path = relative "trades" signal_id day checksum in
      let (previous, s') =
        record_in_manifest "trades" signal_id path checksum (write_file path d s) in
      (document path checksum s, s')

  -- `publish_decision_log`, with the checksum that it supersedes.
  unfoldable pub publish_decision_log :
      (digest : D → String)
      → (day : String) → D
      → Publisher D
      → (Document × Option String) × Publisher D
  unfolding relative record_in_manifest
  publish_decision_log digest day d s =
      let checksum = digest d in
      let path = relative "decisions" day "" checksum in
      let (previous, s') = record_in_manifest "decisions" day path checksum (write_file path d s) in
      ((document path checksum s, previous), s')

  -- `publish_policy`: a policy that is there already is not written again.
  unfoldable pub publish_policy :
      (digest : D → String) → (policy_hash : String) → D → Publisher D → Document × Publisher D
  unfolding relative
  publish_policy digest policy_hash d s =
      let path = relative "policy" (append "sha256-" (short_of 16 policy_hash)) "" "" in
      if is_some (lookup path s.files)
      then (document path policy_hash s, s)
      else (document path (digest d) s, write_file path d s)

-- `latest`
unfoldable pub latest : {D : Type 0} → String → String → Publisher D → Option Version
latest kind key s = newest (versions kind key (manifest_of s))
