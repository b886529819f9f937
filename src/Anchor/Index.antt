-- ===== src/Anchor/Index.antt =====
-- zcastor/anchor/index.py: what landed where. The file is the list of its parsed lines, whose
-- `signal_id` is a text.
pub mod Rows
pub mod Reloaded
use Prim.Native.Char.{Char}
use Prim.Native.String.{◌++◌ as append}
use text.Mathlib.Text.{starts_with}
use zcastor_agent.Base.{
  ℕ, zero, suc, ◌+◌, String, str_eq, Bool, true, false, Option, none, some, List, [], ◌∷◌, ◌++◌,
  length, if◌then◌else◌, opt_or, keep_if, find_first,
}
use zcastor_agent.Base.Dict.{Dict, lookup, insert, values}

-- A value in a row.
pub data Value : Type 0 where
  words : String → Value
  number : ℕ → Value

abbrev pub Row : Type 0
Row = Dict Value

-- A line of the file: a row, or one that is blank or does not parse.
pub data IndexLine : Type 0 where
  row : Row → IndexLine
  unparsed : IndexLine

-- `AnchorIndex`, with its file.
pub record AnchorIndex : Type 0 where
  pub log : List IndexLine
  pub by_signal : Dict Row

-- `existing.update(row)`
abbrev pub update : Row → Row → Row
update e [] = e
update e ((k, v) ∷ r) = update (insert k v e) r

-- `row.get(k, "")`, of a text.
abbrev pub text_or : Option Value → String → String
text_or (some (words s)) d = s
text_or _ d = d

-- The row is merged into what stands under the id.
unfoldable pub file_under : String → Row → Dict Row → Dict Row
file_under id r d = insert id (update (opt_or (lookup id d) []) r) d

-- A round of the loop of `_load`.
unfoldable pub replay : Dict Row → IndexLine → Dict Row
unfolding file_under
replay d unparsed = d
replay d (row r) =
    let id = text_or (lookup "signal_id" r) "" in if str_eq id "" then d else file_under id r d

unfoldable pub replay_all : Dict Row → List IndexLine → Dict Row
unfolding replay
replay_all d [] = d
replay_all d (l ∷ ls) = replay_all (replay d l) ls

-- `AnchorIndex.__init__` over a file: `_load`.
unfoldable pub load : List IndexLine → AnchorIndex
unfolding replay_all
load log = record { log = log; by_signal = replay_all [] log }

-- The arguments of `record_anchored`.
pub record Anchoring : Type 0 where
  pub signal_id : String
  pub registry : String
  pub record_id : ℕ
  pub checksum : String
  pub transaction : String
  pub status : String
  pub registry_id : ℕ
  pub index : ℕ
  pub uri : String
  pub kind : String
  pub environment : String

-- `s.replace("sha256:", "")`, with the number of characters that are still to be dropped.
unfoldable pub without_tags : ℕ → String → String
without_tags k String.[] = String.[]
without_tags (suc k) (String.◌∷◌ c s) = without_tags k s
without_tags zero (String.◌∷◌ c s) =
    let cut = without_tags 6 s in
    let kept = without_tags 0 s in
    if starts_with (String.◌∷◌ c s) "sha256:" then cut else String.◌∷◌ c kept

-- `s[:n]`
abbrev pub take_chars : ℕ → String → String
take_chars zero s = ""
take_chars (suc n) String.[] = ""
take_chars (suc n) (String.◌∷◌ c s) = String.◌∷◌ c (take_chars n s)

abbrev pub anchoring_id : Anchoring → String
anchoring_id a =
    if str_eq a.signal_id ""
    then append "checksum:" (take_chars 16 (without_tags 0 a.checksum))
    else a.signal_id

abbrev pub fields_of : Anchoring → Row
fields_of a =
    ("registry", words a.registry)
    ∷ ("registry_id", number a.registry_id)
    ∷ ("record_id", number a.record_id)
    ∷ ("index", number a.index)
    ∷ ("checksum", words a.checksum)
    ∷ ("transaction", words a.transaction)
    ∷ ("status", words a.status)
    ∷ ("uri", words a.uri)
    ∷ ("kind", words a.kind)
    ∷ ("environment", words a.environment)
    ∷ []

abbrev pub row_of : Anchoring → Row
row_of a = ("signal_id", words (anchoring_id a)) ∷ fields_of a

-- `record_anchored`
unfoldable pub record_anchored : Anchoring → AnchorIndex → AnchorIndex
unfolding file_under
record_anchored a s = record {
  log = s.log ++ row (row_of a) ∷ [];
  by_signal = file_under (anchoring_id a) (row_of a) s.by_signal;
}

-- The entry with its new status, and with the transaction if there is one.
abbrev pub with_status : String → String → Row → Row
with_status status transaction e =
    let e' = insert "status" (words status) e in
    if str_eq transaction "" then e' else insert "status_transaction" (words transaction) e'

abbrev pub status_row : String → String → String → Row
status_row id status transaction =
    ("signal_id", words id)
    ∷ ("status", words status)
    ∷ ("status_transaction", words transaction)
    ∷ []

-- `record_status`, with the entry that is found.
unfoldable pub set_status : Option Row → String → String → String → AnchorIndex → Bool × AnchorIndex
set_status none id status transaction s = (false, s)
set_status (some e) id status transaction s = (
  true,
  record {
    log = s.log ++ row (status_row id status transaction) ∷ [];
    by_signal = insert id (with_status status transaction e) s.by_signal;
  },
)

unfoldable pub record_status : String → String → String → AnchorIndex → Bool × AnchorIndex
unfolding set_status
record_status id status transaction s = set_status (lookup id s.by_signal) id status transaction s

-- `get`, where an empty entry counts as none.
unfoldable pub get : String → AnchorIndex → Option Row
get id s = elim (lookup id s.by_signal) [ some (f ∷ e) ↦ some (f ∷ e) | _ ↦ none ]

-- `get_by_checksum`
unfoldable pub get_by_checksum : String → AnchorIndex → Option Row
unfolding without_tags
get_by_checksum checksum s =
    let bare = without_tags 0 checksum in
    find_first (λ e. str_eq (without_tags 0 (text_or (lookup "checksum" e) "")) bare)
      (values s.by_signal)

-- `active`
unfoldable pub active : AnchorIndex → List Row
active s = keep_if (λ e. str_eq (text_or (lookup "status" e) "") "Active") (values s.by_signal)

-- `stats`: the total, and the counts by status, before they are sorted.
abbrev pub count_statuses : List Row → Dict ℕ → Dict ℕ
count_statuses [] counts = counts
count_statuses (e ∷ es) counts =
    let status = text_or (lookup "status" e) "unknown" in
    count_statuses es (insert status (opt_or (lookup status counts) 0 + 1) counts)

unfoldable pub stats : AnchorIndex → ℕ × Dict ℕ
stats s = (length s.by_signal, count_statuses (values s.by_signal) [])
