-- ===== src/Record/Disclosure.antt =====
-- zcastor/record/disclosure.py: the bundle for one recipient. The publisher's folder and the folder
-- `records` of the bundle are dicts from a path to a content; the hash is a parameter, and the layout
-- of VERIFY.md is left out.
pub mod Verified
pub mod Noted
use Prim.Native.Char.{code}
use zcastor_agent.Base.{
  ℕ, suc, String, Bool, true, false, Option, none, some, List, [], ◌∷◌, ◌++◌, map,
}
use zcastor_agent.Base.{length, keep_if, str_eq, ◌==◌, ◌||◌, if◌then◌else◌}
use zcastor_agent.Base.Dict.{Dict, lookup, insert}
use zcastor_agent.Base.Text.{codes}
use zcastor_agent.Anchor.Index.{AnchorIndex, Value, Row, get_by_checksum, take_chars}

-- `Path(relative).name`: what follows the last slash.
abbrev pub has_slash : String → Bool
has_slash String.[] = false
has_slash (String.◌∷◌ c s) = code c == 47 || has_slash s

abbrev pub name_of : String → String
name_of String.[] = ""
name_of (String.◌∷◌ c s) =
    let later = name_of s in if has_slash (String.◌∷◌ c s) then later else String.◌∷◌ c s

-- Where a document landed, each value under its key.
pub record Landing : Type 0 where
  pub registry_id : Option Value
  pub record_id : Option Value
  pub transaction : Option Value
  pub status : Option Value
  pub environment : Option Value

-- The part of an entry that the index gives: nothing without an index.
pub data Anchored : Type 0 where
  unasked : Anchored
  landed : Landing → Anchored
  not_anchored : Anchored

-- An entry of the manifest.
pub record Released : Type 0 where
  pub path : String
  pub file : String
  pub checksum : String
  pub anchored : Anchored

pub record Gathered : Type 0 where
  pub records : Dict String
  pub included : List Released
  pub missing : List String

pub record Manifest : Type 0 where
  pub recipient : String
  pub disclosed_at : String
  pub holder : String
  pub environment : String
  pub registry : String
  pub agreement : String
  pub included : List Released

-- A line of the log, and one that does not parse or is blank.
pub record LogEntry : Type 0 where
  pub recipient : String
  pub disclosed_at : String
  pub agreement : String
  pub checksums : List String
  pub count : ℕ

abbrev pub LogLine : Type 0
LogLine = Option LogEntry

-- `DisclosureLog.append`, `entries` and `for_recipient`, on the lines of the file.
unfoldable pub append_entry : LogEntry → List LogLine → List LogLine
append_entry e lines = lines ++ some e ∷ []

unfoldable pub entries : List LogLine → List LogEntry
entries [] = []
entries (none ∷ lines) = entries lines
entries (some e ∷ lines) = e ∷ entries lines

unfoldable pub for_recipient : String → List LogLine → List LogEntry
for_recipient recipient lines = keep_if (λ e. str_eq e.recipient recipient) (entries lines)

pub record Disclosure : Type 0 where
  pub root : Dict String
  pub holder : String
  pub anchor_index : Option AnchorIndex
  pub log : Option (List LogLine)
  pub environment : String
  pub registry : String

abbrev pub landing_of : Row → Landing
landing_of e = record {
  registry_id = lookup "registry_id" e;
  record_id = lookup "record_id" e;
  transaction = lookup "transaction" e;
  status = lookup "status" e;
  environment = lookup "environment" e;
}

abbrev pub anchored_from : Option Row → Anchored
anchored_from none = not_anchored
anchored_from (some e) = landed (landing_of e)

abbrev pub anchored_of : Option AnchorIndex → String → Anchored
anchored_of none checksum = unasked
anchored_of (some i) checksum = anchored_from (get_by_checksum checksum i)

-- One line of the summary in VERIFY.md: the file, the checksum, and whether it has a transaction.
abbrev pub has_text : Option Value → Bool
has_text none = false
has_text (some (Value.words s)) = if str_eq s "" then false else true
has_text (some (Value.number n)) = if n == 0 then false else true

abbrev pub is_noted : Anchored → Bool
is_noted unasked = false
is_noted not_anchored = false
is_noted (landed l) = has_text l.transaction

abbrev pub summary_line : Released → String × String × Bool
summary_line r = (r.file, r.checksum, is_noted r.anchored)

-- The values that VERIFY.md shows: recipient, day, holder, environment, registry, and the lines.
pub record Verify : Type 0 where
  pub recipient : String
  pub date : String
  pub holder : String
  pub environment : String
  pub registry : String
  pub summary : List (String × String × Bool)
  pub agreement : String

unfoldable pub verify_text : Manifest → Verify
verify_text m = record {
  recipient = m.recipient;
  date = take_chars 10 m.disclosed_at;
  holder = m.holder;
  environment = m.environment;
  registry = m.registry;
  summary = map summary_line m.included;
  agreement = m.agreement;
}

module _ (sha : String → String) where
  -- One round of the loop of `build`, on the content of the source.
  abbrev pub gather_one : Disclosure → String → Option String → Gathered → Gathered
  gather_one d relative none g = record g { missing = g.missing ++ relative ∷ [] }
  gather_one d relative (some content) g = record g {
    records = insert (name_of relative) content g.records;
    included =
        g.included
        ++ (record {
          path = relative;
          file = name_of relative;
          checksum = sha content;
          anchored = anchored_of d.anchor_index (sha content);
        })
          ∷ [];
  }

  unfoldable pub gather : Disclosure → List String → Gathered → Gathered
  gather d [] g = g
  gather d (relative ∷ paths) g = gather d paths (gather_one d relative (lookup relative d.root) g)

  -- A bundle in an empty folder.
  unfoldable pub gathered : Disclosure → List String → Gathered
  gathered d paths = gather d paths (record { records = []; included = []; missing = [] })

  unfoldable pub manifest_of : Disclosure → String → String → String → List Released → Manifest
  manifest_of d recipient agreement now included = record {
    recipient = recipient;
    disclosed_at = now;
    holder = d.holder;
    environment = d.environment;
    registry = d.registry;
    agreement = agreement;
    included = included;
  }

  abbrev pub noted : String → String → String → List Released → LogEntry
  noted recipient agreement now included = record {
    recipient = recipient;
    disclosed_at = now;
    agreement = agreement;
    checksums = map (λ r. r.checksum) included;
    count = length included;
  }

  abbrev pub write_log : LogEntry → Option (List LogLine) → Option (List LogLine)
  write_log e none = none
  write_log e (some lines) = some (append_entry e lines)

  -- `build`: the files of the bundle, its manifest, and the log that it leaves.
  unfoldable pub build :
      Disclosure → String → List String → String → String → Gathered × Manifest × Disclosure
  build d recipient paths agreement now =
      let g = gathered d paths in
      (
        g,
        manifest_of d recipient agreement now g.included,
        record d { log = write_log (noted recipient agreement now g.included) d.log },
      )
