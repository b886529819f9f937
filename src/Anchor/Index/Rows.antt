-- ===== src/Anchor/Index/Rows.antt =====
-- zcastor/anchor/index.py: the rows of the index, and the id that each of them holds.
use Prim.Native.String.{◌++◌ as append}
use text.Mathlib.Text.{starts_with}
use text.Mathlib.TextPositions.{starts_with-append}
use zcastor_agent.Base.{
  String, String-discrete, str_eq, ◌≡◌, refl, ◌≢◌, ◌∙◌, sym, ap, true, false, Option, none, some,
  [], ◌∷◌, arith, opt_or, Bool-cases, inl, inr,
}
use zcastor_agent.Base.Dict.{Dict, lookup, insert, lookup-insert, lookup-insert_self}
use zcastor_agent.Anchor.Index.{
  Value, words, Row, update, text_or, Anchoring, anchoring_id, take_chars, without_tags, fields_of,
  row_of, with_status, status_row,
}

-- A field of the row under an id.
abbrev pub field : String → String → Dict Row → Option Value
field id name d = lookup name (opt_or (lookup id d) [])

-- Two rows have the same fields, but for the transaction of a status.
abbrev pub IsAlike : Row → Row → Type 0
IsAlike e e' = (f : String) → f ≢ "status_transaction" → lookup f e ≡ lookup f e'

insert-IsAlike :
    (k : String) (v : Value) (e e' : Row) → IsAlike e e' → IsAlike (insert k v e) (insert k v e')
insert-IsAlike k v e e' h f ne = rw (lookup-insert k f v e, lookup-insert k f v e', h f ne) refl

pub update-IsAlike : (r e e' : Row) → IsAlike e e' → IsAlike (update e r) (update e' r)
update-IsAlike [] e e' h = h
update-IsAlike ((k, v) ∷ r) e e' h =
    update-IsAlike r (insert k v e) (insert k v e') (insert-IsAlike k v e e' h)

pub with_status-IsAlike :
    (id status transaction : String) (e e' : Row)
    → IsAlike e e'
    → lookup "signal_id" e ≡ some (words id)
    → IsAlike (with_status status transaction e) (update e' (status_row id status transaction))
with_status-IsAlike id status transaction e e' h own f ne = ground (
  arith,
  h f ne,
  own,
  ne,
  lookup-insert "status" f (words status) e,
  lookup-insert "status_transaction" f (words transaction) (insert "status" (words status) e),
  lookup-insert "signal_id" f (words id) e',
  lookup-insert "status" f (words status) (insert "signal_id" (words id) e'),
  lookup-insert "status_transaction" f (words transaction)
      (insert "status" (words status) (insert "signal_id" (words id) e')),
)

tagged_nonempty : (t : String) → append "checksum:" t ≢ ""
tagged_nonempty t q =
    let begins : starts_with "" "checksum:" ≡ true =
      ap (λ x. starts_with x "checksum:") (sym q) ∙ starts_with-append "checksum:" t in
    let never : starts_with "" "checksum:" ≡ false = refl in cc

pub anchoring_id_nonempty : (a : Anchoring) → str_eq (anchoring_id a) "" ≡ false
anchoring_id_nonempty a =
    let tagged = tagged_nonempty (take_chars 16 (without_tags 0 a.checksum)) in
    ground (arith, tagged)

lookup-update_ne : (f : String) (r e : Row) → lookup f r ≡ none → lookup f (update e r) ≡ lookup f e
lookup-update_ne f [] e h = refl
lookup-update_ne f ((k, v) ∷ r) e h =
    ground (arith, lookup-update_ne f r (insert k v e), lookup-insert k f v e)

pub signal_id-row_of :
    (a : Anchoring) (e : Row)
    → lookup "signal_id" (update e (row_of a)) ≡ some (words (anchoring_id a))
unfolding String-discrete
signal_id-row_of a e =
    lookup-update_ne "signal_id" (fields_of a) (insert "signal_id" (words (anchoring_id a)) e) refl
    ∙ lookup-insert_self "signal_id" (words (anchoring_id a)) e

pub id_of_row : (a : Anchoring) → text_or (lookup "signal_id" (row_of a)) "" ≡ anchoring_id a
unfolding String-discrete
id_of_row a = refl

pub id_of_status :
    (id status transaction : String)
    → text_or (lookup "signal_id" (status_row id status transaction)) "" ≡ id
unfolding String-discrete
id_of_status id status transaction = refl

signal_id-status :
    (v : Value) (e : Row) → lookup "signal_id" (insert "status" v e) ≡ lookup "signal_id" e
unfolding String-discrete
signal_id-status v e = lookup-insert "status" "signal_id" v e

signal_id-status_transaction :
    (v : Value) (e : Row)
    → lookup "signal_id" (insert "status_transaction" v e) ≡ lookup "signal_id" e
unfolding String-discrete
signal_id-status_transaction v e = lookup-insert "status_transaction" "signal_id" v e

pub signal_id-with_status :
    (status transaction : String) (e : Row)
    → lookup "signal_id" (with_status status transaction e) ≡ lookup "signal_id" e
signal_id-with_status status transaction e =
    let first = signal_id-status (words status) e in
    let second =
      signal_id-status_transaction (words transaction) (insert "status" (words status) e) in
    elim (Bool-cases (str_eq transaction "")) [
      | inl without ↦ rw without first
      | inr given ↦ rw given (second ∙ first)
    ]
