-- ===== src/Anchor/Index/Reloaded.antt =====
-- zcastor/anchor/index.py: what a restart finds in the index.
use zcastor_agent.Base.{
  String, String-discrete, str_eq, ◌≡◌, refl, ◌≢◌, ◌∙◌, sym, true, false, Option, none, some, List,
  [], ◌∷◌, ◌++◌, arith, is_some, opt_or,
}
use zcastor_agent.Base.Dict.{Dict, lookup, insert, lookup-insert, lookup-insert_self}
use zcastor_agent.Anchor.Index.{
  words, Row, IndexLine, row, AnchorIndex, update, text_or, file_under, replay, replay_all, load,
  Anchoring, anchoring_id, row_of, record_anchored, with_status, status_row, set_status,
  record_status,
}
use zcastor_agent.Anchor.Index.Rows.{
  field, IsAlike, update-IsAlike, with_status-IsAlike, anchoring_id_nonempty, signal_id-row_of,
  id_of_row, id_of_status, signal_id-with_status,
}

-- The operations that write.
pub data Write : Type 0 where
  anchored : Anchoring → Write
  moved : (id status transaction : String) → Write

unfoldable pub perform : Write → AnchorIndex → AnchorIndex
perform (anchored a) s = record_anchored a s
perform (moved id status transaction) s = (record_status id status transaction s).1

unfoldable pub history : List Write → AnchorIndex → AnchorIndex
unfolding perform
history [] s = s
history (o ∷ os) s = history os (perform o s)

-- The index in memory and what replaying its file gives: the same ids, none of them empty, and rows
-- that are alike, each with its id.
record IsReloaded (s : AnchorIndex) (d : Dict Row) : Type 0 where
  known : (id : String) → is_some (lookup id d) ≡ is_some (lookup id s.by_signal)
  named : (id : String) → is_some (lookup id s.by_signal) ≡ true → str_eq id "" ≡ false
  keyed :
      (id : String)
      → is_some (lookup id s.by_signal) ≡ true
      → field id "signal_id" s.by_signal ≡ some (words id)
  alike : (id : String) → IsAlike (opt_or (lookup id s.by_signal) []) (opt_or (lookup id d) [])

replay_all-snoc :
    (d : Dict Row) (ls : List IndexLine) (l : IndexLine)
    → replay_all d (ls ++ l ∷ []) ≡ replay (replay_all d ls) l
unfolding replay_all
replay_all-snoc d [] l = refl
replay_all-snoc d (x ∷ ls) l = replay_all-snoc (replay d x) ls l

-- Both sides file rows that are alike under the same id.
insert-IsReloaded :
    (id : String) (e e' : Row) (s s' : AnchorIndex) (d : Dict Row)
    → str_eq id "" ≡ false
    → lookup "signal_id" e ≡ some (words id)
    → IsAlike e e'
    → s'.by_signal ≡ insert id e s.by_signal
    → IsReloaded s d
    → IsReloaded s' (insert id e' d)
insert-IsReloaded id e e' s s' d new own like put r = rw put (record {
  known = λ j. ground (arith, lookup-insert id j e s.by_signal, lookup-insert id j e' d, r.known j);
  named = λ j. ground (arith, lookup-insert id j e s.by_signal, r.named j, new);
  keyed = λ j. ground (arith, lookup-insert id j e s.by_signal, r.keyed j, own);
  alike = λ j f ne.
      ground (
        arith,
        lookup-insert id j e s.by_signal,
        lookup-insert id j e' d,
        like f ne,
        r.alike j f ne,
      );
})

replay-row :
    (d : Dict Row) (r : Row) (id : String)
    → text_or (lookup "signal_id" r) "" ≡ id
    → str_eq id "" ≡ false
    → replay d (row r) ≡ insert id (update (opt_or (lookup id d) []) r) d
unfolding replay file_under
replay-row d r id own new = rw (own, new) refl

record_anchored-IsReloaded :
    (a : Anchoring) (s : AnchorIndex)
    → IsReloaded s (replay_all [] s.log)
    → let s' = record_anchored a s in IsReloaded s' (replay_all [] s'.log)
unfolding record_anchored file_under
record_anchored-IsReloaded a s h =
    let d = replay_all [] s.log in
    let id = anchoring_id a in
    let new = anchoring_id_nonempty a in
    let s' = record_anchored a s in
    rw (replay_all-snoc [] s.log (row (row_of a)), replay-row d (row_of a) id (id_of_row a) new)
      (insert-IsReloaded id (update (opt_or (lookup id s.by_signal) []) (row_of a))
        (update (opt_or (lookup id d) []) (row_of a)) s s' d new (signal_id-row_of a _)
        (update-IsAlike (row_of a) _ _ (h.alike id)) refl h)

set_status-IsReloaded :
    (o : Option Row) (id status transaction : String) (s : AnchorIndex)
    → lookup id s.by_signal ≡ o
    → IsReloaded s (replay_all [] s.log)
    → let s' = (set_status o id status transaction s).1 in IsReloaded s' (replay_all [] s'.log)
unfolding set_status
set_status-IsReloaded none id status transaction s found h = h
set_status-IsReloaded (some e) id status transaction s found h =
    let d = replay_all [] s.log in
    let r = status_row id status transaction in
    let here : is_some (lookup id s.by_signal) ≡ true = rw found refl in
    let new = h.named id here in
    let row_here : opt_or (lookup id s.by_signal) [] ≡ e = rw found refl in
    let own : lookup "signal_id" e ≡ some (words id) = rw (← row_here) (h.keyed id here) in
    let like : IsAlike e (opt_or (lookup id d) []) = rw (← row_here) (h.alike id) in
    let s' = (set_status (some e) id status transaction s).1 in
    rw
      (replay_all-snoc [] s.log (row r), replay-row d r id (id_of_status id status transaction) new)
      (insert-IsReloaded id (with_status status transaction e) (update (opt_or (lookup id d) []) r)
        s s' d new (signal_id-with_status status transaction e ∙ own)
        (with_status-IsAlike id status transaction e _ like own) refl h)

history-IsReloaded :
    (os : List Write) (s : AnchorIndex)
    → IsReloaded s (replay_all [] s.log)
    → let s' = history os s in IsReloaded s' (replay_all [] s'.log)
unfolding history perform record_status
history-IsReloaded [] s h = h
history-IsReloaded (anchored a ∷ os) s h =
    history-IsReloaded os (record_anchored a s) (record_anchored-IsReloaded a s h)
history-IsReloaded (moved id status transaction ∷ os) s h =
    history-IsReloaded os (set_status (lookup id s.by_signal) id status transaction s).1
      (set_status-IsReloaded (lookup id s.by_signal) id status transaction s refl h)

-- The index over a file that is empty.
abbrev pub fresh_index : AnchorIndex
fresh_index = record { log = []; by_signal = [] }

fresh-IsReloaded :
    (os : List Write) → let s = history os fresh_index in IsReloaded s (replay_all [] s.log)
fresh-IsReloaded os = history-IsReloaded os fresh_index (
    unfold replay_all in
    record { known = λ id. refl; named = λ id h. cc; keyed = λ id h. cc; alike = λ id f ne. refl })

-- After any sequence of writes to an index that starts empty, loading its file gives the same ids,
-- and under each of them the same value in every field but the transaction of a status.
pub field-load :
    (os : List Write) (id name : String)
    → name ≢ "status_transaction"
    → let s = history os fresh_index in
      (field id name (load s.log).by_signal ≡ field id name s.by_signal)
      × (is_some (lookup id (load s.log).by_signal) ≡ is_some (lookup id s.by_signal))
unfolding load
field-load os id name ne = let h = fresh-IsReloaded os in (sym (h.alike id name ne), h.known id)

blank_status_kept :
    (id status : String) (e : Row)
    → lookup "status_transaction" (with_status status "" e) ≡ lookup "status_transaction" e
unfolding String-discrete
blank_status_kept id status e = lookup-insert "status" "status_transaction" (words status) e

set_status-blank :
    (o : Option Row) (id status : String) (s : AnchorIndex)
    → lookup id s.by_signal ≡ o
    → is_some o ≡ true
    → str_eq id "" ≡ false
    → let s' = (set_status o id status "" s).1 in
      (field id "status_transaction" s'.by_signal ≡ field id "status_transaction" s.by_signal)
      × (field id "status_transaction" (replay_all [] s'.log) ≡ some (words ""))
unfolding set_status
set_status-blank none id status s found here new = cc
set_status-blank (some e) id status s found here new =
    let d = replay_all [] s.log in
    let r = status_row id status "" in
    let old = opt_or (lookup id d) [] in
    let e' = insert "status" (words status) (insert "signal_id" (words id) old) in
    (
      rw lookup-insert_self (rw found (blank_status_kept id status e)),
      rw (replay_all-snoc [] s.log (row r), replay-row d r id (id_of_status id status "") new)
          (rw lookup-insert_self (lookup-insert_self "status_transaction" (words "") e')),
    )

-- A status that is recorded without a transaction leaves the transaction of the earlier status in
-- memory, but after a restart the index gives an empty one: the appended line holds the empty text
-- and covers what an earlier line says.
pub record_status-blank :
    (os : List Write) (id status : String)
    → is_some (lookup id (history os fresh_index).by_signal) ≡ true
    → let s = history os fresh_index in
      let s' = (record_status id status "" s).1 in
      (field id "status_transaction" s'.by_signal ≡ field id "status_transaction" s.by_signal)
      × (field id "status_transaction" (load s'.log).by_signal ≡ some (words ""))
unfolding record_status load
record_status-blank os id status here =
    let s = history os fresh_index in
    set_status-blank (lookup id s.by_signal) id status s refl here
      ((fresh-IsReloaded os).named id here)
