-- ===== src/Anchor/Nvnm/Receipt.antt =====
-- zcastor/anchor/nvnm.py: the ids that a receipt gives. Topics and data are texts, as `hex` and `str`
-- give them; a digit that is none makes `int` raise.
use zcastor_agent.Base.{
  ℕ, zero, suc, ◌+◌, ◌-◌, ◌*◌, ◌/◌, String, Bool, true, false, ◌&&◌, Option, none,
}
use zcastor_agent.Base.{some, List, [], ◌∷◌, length, take, drop, leb, ◌==◌}
use zcastor_agent.Base.{if◌then◌else◌}
use zcastor_agent.Base.Text.{codes}

pub record Log : Type 0 where
  pub topics : List String
  pub log_data : String

-- The text without each "0x", on the codes.
abbrev pub without_0x : List ℕ → List ℕ
without_0x [] = []
without_0x (a ∷ []) = a ∷ []
without_0x (a ∷ b ∷ cs) =
    let skipped = without_0x cs in
    let kept = without_0x (b ∷ cs) in if a == 48 && b == 120 then skipped else a ∷ kept

-- `data[2:]` of a text that starts with "0x".
abbrev pub body_of : List ℕ → List ℕ
body_of [] = []
body_of (a ∷ []) = a ∷ []
body_of (a ∷ b ∷ cs) = if a == 48 && b == 120 then cs else a ∷ b ∷ cs

-- `==` of two texts, the first in small letters.
abbrev small : ℕ → ℕ
small c = if leb 65 c && leb c 90 then c + 32 else c

abbrev pub same_codes : List ℕ → List ℕ → Bool
same_codes [] [] = true
same_codes (x ∷ xs) (y ∷ ys) = small x == y && same_codes xs ys
same_codes xs ys = false

abbrev pub digit_of : ℕ → Option ℕ
digit_of c =
    if leb 48 c && leb c 57
    then some (c - 48)
    else if leb 97 c && leb c 102
    then some (c - 87)
    else if leb 65 c && leb c 70
    then some (c - 55)
    else none

-- `int(text, 16)`, after the digits that have been read.
abbrev pub step : ℕ → Option ℕ → Option ℕ
step n none = none
step n (some d) = some (16 * n + d)

abbrev pub and_then : {A B : Type 0} → Option A → (A → Option B) → Option B
and_then none f = none
and_then (some a) f = f a

abbrev pub read_hex : ℕ → List ℕ → Option ℕ
read_hex n [] = some n
read_hex n (c ∷ cs) = and_then (step n (digit_of c)) (λ m. read_hex m cs)

-- The first n words of the given width.
abbrev pub words_of : ℕ → ℕ → List ℕ → Option (List ℕ)
words_of width zero cs = some []
words_of width (suc n) cs =
    and_then (read_hex 0 (take width cs))
      (λ w. and_then (words_of width n (drop width cs)) (λ ws. some (w ∷ ws)))

abbrev pub data_words : List ℕ → Option (List ℕ)
data_words body = words_of 64 (length body / 64) body

-- Whether the log's first topic is the event.
abbrev pub is_event : String → List String → Bool
is_event topic [] = false
is_event topic (t ∷ ts) = same_codes (without_0x (codes t)) (codes topic)

-- `_log_words`; none where `int` raises.
unfoldable pub log_words : List Log → String → Option (List ℕ)
log_words [] topic = some []
log_words (l ∷ ls) topic =
    let rest = log_words ls topic in
    if is_event topic l.topics then data_words (body_of (codes l.log_data)) else rest

abbrev pub record_added_topic : String
record_added_topic = "1a3295fa8cc0e28c95d21912c9e6958f3bc740231781f7640ad885c972a352fd"

abbrev pub registry_added_topic : String
registry_added_topic = "181791bc379acedd3615cf065d3c275dfa6a3c4614c9065d54c98773f576108d"

abbrev pub ids_of : List ℕ → ℕ × ℕ
ids_of (registry ∷ id ∷ index ∷ rest) = (id, index)
ids_of ws = (0, 0)

-- `record_ids_from_receipt`: the record's id is the second word.
unfoldable pub record_ids_from_receipt : List Log → Option (ℕ × ℕ)
record_ids_from_receipt logs = and_then (log_words logs record_added_topic) (λ ws. some (ids_of ws))

-- `registry_id_from_receipt`: a log of the event that is too short is passed over.
unfoldable pub registry_id_from_receipt : List Log → Option ℕ
registry_id_from_receipt [] = some 0
registry_id_from_receipt (l ∷ ls) =
    let rest = registry_id_from_receipt ls in
    let body = body_of (codes l.log_data) in
    if is_event registry_added_topic l.topics && leb 64 (length body)
    then read_hex 0 (take 64 body)
    else rest
