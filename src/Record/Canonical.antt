-- ===== src/Record/Canonical.antt =====
-- zcastor/record/canonical.py: the canonical text of a JSON value. How one text or one number is
-- written is a parameter, as is the hash.
pub mod Ordered
use Prim.Native.String.{◌++◌ as append}
use zcastor_agent.Base.{
  ℕ, suc, ◌+◌, String, Bool, true, false, ◌&&◌, Option, none, some, List, [], ◌∷◌,
}
use zcastor_agent.Base.{if◌then◌else◌, str_eq}
use zcastor_agent.Base.Int.{ℤ}
use zcastor_agent.Base.Sort.{sort_by}
use zcastor_agent.Base.TextOrder.{text_leb}
use zcastor_agent.Base.Text.{show}

-- A float is finite, with the text of `repr`, or not.
pub data Float : Type 0 where
  finite : String → Float
  non_finite : Float

-- The key of a dict: a text, or anything else.
pub data Key : Type 0 where
  name : String → Key
  other : Key

mutual
  pub data Json : Type 0 where
    null : Json
    bool : Bool → Json
    int : ℤ → Json
    float : Float → Json
    string : String → Json
    array : Items → Json
    object : Members → Json

  pub data Items : Type 0 where
    no_items : Items
    item : Json → Items → Items

  pub data Members : Type 0 where
    no_members : Members
    member : Key → Json → Members → Members

-- The first answer, if any.
abbrev pub or_else : Option String → Option String → Option String
or_else none b = b
or_else (some a) b = some a

-- `_reject_non_finite`: the path of the first value that is refused.
unfoldable mutual
  pub refused_at : Json → String → Option String
  refused_at null path = none
  refused_at (bool b) path = none
  refused_at (int n) path = none
  refused_at (float (finite r)) path = none
  refused_at (float non_finite) path = some path
  refused_at (string s) path = none
  refused_at (array xs) path = refused_items xs 0 path
  refused_at (object ms) path = refused_members ms path

  pub refused_items : Items → ℕ → String → Option String
  refused_items no_items i path = none
  refused_items (item v xs) i path =
      or_else (refused_at v (append path (append "[" (append (show i) "]"))))
        (refused_items xs (i + 1) path)

  pub refused_members : Members → String → Option String
  refused_members no_members path = none
  refused_members (member other v ms) path = some path
  refused_members (member (name k) v ms) path =
      or_else (refused_at v (append path (append "." k))) (refused_members ms path)

-- `",".join`
abbrev pub joined : List String → String
joined [] = ""
joined (x ∷ []) = x
joined (x ∷ y ∷ ys) = append x (append "," (joined (y ∷ ys)))

abbrev pub by_key : String × String → String × String → Bool
by_key a b = text_leb a.0 b.0

abbrev pub key_text : Key → String
key_text (name k) = k
key_text other = ""

-- The text, unless a value was refused.
abbrev pub text_unless : Option String → String → Option String
text_unless (some path) t = none
text_unless none t = some t

-- `checksum_bytes`
unfoldable pub checksum_bytes : (String → String) → String → String
checksum_bytes sha256 s = append "sha256:" (sha256 s)

abbrev pub summed : (String → String) → Option String → Option String
summed sha256 none = none
summed sha256 (some s) = some (checksum_bytes sha256 s)

module _ (quote : String → String) (digits : ℤ → String) where
  abbrev pub pair_text : List (String × String) → List String
  pair_text [] = []
  pair_text ((k, v) ∷ ms) = append (quote k) (append ":" v) ∷ pair_text ms

  abbrev pub object_text : List (String × String) → String
  object_text ms = append "{" (append (joined (pair_text (sort_by by_key ms))) "}")

  abbrev pub float_text : Float → String
  float_text (finite r) = r
  float_text non_finite = ""

  -- `json.dumps` with sorted keys, on a value that is not refused.
  unfoldable mutual
    pub dumps : Json → String
    dumps null = "null"
    dumps (bool true) = "true"
    dumps (bool false) = "false"
    dumps (int n) = digits n
    dumps (float f) = float_text f
    dumps (string s) = quote s
    dumps (array xs) = append "[" (append (joined (item_texts xs)) "]")
    dumps (object ms) = object_text (member_texts ms)

    pub item_texts : Items → List String
    item_texts no_items = []
    item_texts (item v xs) = dumps v ∷ item_texts xs

    pub member_texts : Members → List (String × String)
    member_texts no_members = []
    member_texts (member k v ms) = (key_text k, dumps v) ∷ member_texts ms

  -- `canonical_bytes`; none where the value is refused.
  unfoldable pub canonical_bytes : Json → Option String
  canonical_bytes v = text_unless (refused_at v "$") (append (dumps v) "\n")

  unfoldable pub checksum : (String → String) → Json → Option String
  checksum sha256 v = summed sha256 (canonical_bytes v)
