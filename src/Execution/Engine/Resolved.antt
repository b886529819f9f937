-- ===== src/Execution/Engine/Resolved.antt =====
-- zcastor/execution/engine.py: `on_outcome_resolved` moves a record once.
use zcastor_agent.Base.{
  String, String-discrete, true, false, Option, none, some, [], ◌∷◌, ◌≡◌, refl, ◌∙◌, inl, inr, ◌⊎◌,
  Bool-cases,
}
use zcastor_agent.Base.Dict.{lookup, insert, lookup-insert, lookup-insert_self}
use zcastor_agent.Anchor.Outbox.{Outbox}
use zcastor_agent.Anchor.Index.{Value, words, Row, AnchorIndex, record_status, set_status, get}
use zcastor_agent.Execution.Engine.{Ports, EngineState}
use zcastor_agent.Execution.Engine.Lifecycle.{
  is_active, supersede, resolve_entry, resolve_in, on_outcome_resolved,
}

superseded-is_active : (r : Row) → is_active (insert "status" (words "Superseded") r) ≡ false
unfolding String-discrete
superseded-is_active r = rw (lookup-insert "status" "status" (words "Superseded") r) refl

-- What `get` makes of the row that is filed.
abbrev pub filed : Option Row → Option Row
filed o = elim o [ some (f ∷ e) ↦ some (f ∷ e) | _ ↦ none ]

filed-cases : (o : Option Row) → (filed o ≡ none) ⊎ (filed o ≡ o)
filed-cases none = inl refl
filed-cases (some []) = inl refl
filed-cases (some (f ∷ e)) = inr refl

filed-some : (o : Option Row) (r : Row) → filed o ≡ some r → o ≡ some r
filed-some none r h = cc
filed-some (some []) r h = cc
filed-some (some (f ∷ e)) r h = h

get-lookup :
    (id : String) (i : AnchorIndex) (r : Row) → get id i ≡ some r → lookup id i.by_signal ≡ some r
unfolding get
get-lookup id i r h = filed-some (lookup id i.by_signal) r h

pub lookup-record_status :
    (id : String) (i : AnchorIndex) (r : Row)
    → lookup id i.by_signal ≡ some r
    → lookup id (record_status id "Superseded" "" i).1.by_signal
      ≡ some (insert "status" (words "Superseded") r)
unfolding record_status set_status String-discrete
lookup-record_status id i r h =
    rw h (lookup-insert_self id (insert "status" (words "Superseded") r) i.by_signal)

get-record_status :
    (id : String) (i : AnchorIndex) (r : Row)
    → get id i ≡ some r
    → let i' = (record_status id "Superseded" "" i).1 in
      (get id i' ≡ none) ⊎ (get id i' ≡ some (insert "status" (words "Superseded") r))
unfolding get
get-record_status id i r h =
    let put = lookup-record_status id i r (get-lookup id i r h) in
    elim (filed-cases (lookup id (record_status id "Superseded" "" i).1.by_signal)) [
      | inl gone ↦ inl gone
      | inr kept ↦ inr (kept ∙ put)
    ]

module _ {W : Type 0} (q : Ports W) where
  resolve_entry-inactive :
      (o : Option Row) (r : Row) (id : String) (b : Outbox) (i : AnchorIndex) (s : EngineState W)
      → (o ≡ none) ⊎ (o ≡ some r)
      → is_active r ≡ false
      → resolve_entry q o id b i s ≡ s
  unfolding resolve_entry
  resolve_entry-inactive o r id b i s (inl h) n = rw h refl
  resolve_entry-inactive o r id b i s (inr h) n = rw (h, n) refl

  module _ (id : String) (i : AnchorIndex) (b : Outbox) (s : EngineState W)
      (si : s.anchor_index ≡ some i) (sb : s.outbox ≡ some b) where
    on_outcome_resolved-entry : on_outcome_resolved q id s ≡ resolve_entry q (get id i) id b i s
    unfolding on_outcome_resolved resolve_in
    on_outcome_resolved-entry = rw (si, sb) refl

    supersede-again :
        (v : Option Value) (r : Row)
        → get id i ≡ some r
        → lookup "registry" r ≡ v
        → is_active r ≡ true
        → on_outcome_resolved q id (supersede q v id r b i s) ≡ supersede q v id r b i s
    unfolding supersede on_outcome_resolved resolve_in resolve_entry
    supersede-again none r h v a = on_outcome_resolved-entry ∙ rw (h, resolve_entry, v, a) refl
    supersede-again (some registry) r h v a =
        resolve_entry-inactive _ (insert "status" (words "Superseded") r) id _ _ _
          (get-record_status id i r h) (superseded-is_active r)

    resolve_entry-again :
        (o : Option Row)
        → get id i ≡ o
        → on_outcome_resolved q id (resolve_entry q o id b i s) ≡ resolve_entry q o id b i s
    unfolding resolve_entry
    resolve_entry-again none h = on_outcome_resolved-entry ∙ rw (h, resolve_entry) refl
    resolve_entry-again (some r) h = elim (Bool-cases (is_active r)) [
      | inl on ↦ rw on (supersede-again (lookup "registry" r) r h refl on)
      | inr off ↦ rw off (on_outcome_resolved-entry ∙ rw (h, resolve_entry, off) refl)
    ]

  resolve_in-again :
      (oi : Option AnchorIndex) (ob : Option Outbox) (id : String) (s : EngineState W)
      → s.anchor_index ≡ oi
      → s.outbox ≡ ob
      → on_outcome_resolved q id (resolve_in q oi ob id s) ≡ resolve_in q oi ob id s
  unfolding resolve_in on_outcome_resolved
  resolve_in-again (some i) (some b) id s si sb = resolve_entry-again id i b s si sb (get id i) refl
  resolve_in-again (some i) none id s si sb = rw (si, sb) refl
  resolve_in-again none ob id s si sb = rw si refl

  -- The second outcome of a signal changes nothing: a record is moved from Active once.
  pub on_outcome_resolved-again :
      (id : String) (s : EngineState W)
      → on_outcome_resolved q id (on_outcome_resolved q id s) ≡ on_outcome_resolved q id s
  unfolding on_outcome_resolved
  on_outcome_resolved-again id s = resolve_in-again s.anchor_index s.outbox id s refl refl
