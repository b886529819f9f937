-- ===== src/Anchor/Nvnm/Queued.antt =====
-- zcastor/anchor/nvnm.py with outbox.py: a failure that is not known to be permanent loses nothing.
use Prim.Native.String.{◌++◌ as append}
use zcastor_agent.Anchor.Record.{dedupe_key}
use zcastor_agent.Base.{arith, str_mem, ℕ, String, true, false, ◌≡◌, refl, sym, ap, ◌∙◌, str_eq}
use zcastor_agent.Base.{length, inl, inr, Bool-cases, List, [], ◌∷◌, All, take, ◌+◌}
use zcastor_agent.Base.Dict.{values}
use zcastor_agent.Base.Text.{codes}
use zcastor_agent.Anchor.Record.{PendingRecord, AnchorResult, unavailable, submit}
use zcastor_agent.Anchor.Outbox.{Outbox, drain}
use zcastor_agent.Anchor.Outbox.Filed.{IsFiled}
use zcastor_agent.Anchor.Outbox.Replayed.{cores}
use zcastor_agent.Anchor.Outbox.Outage.{IsUnreachable, IsStuck, total_attempts, due, drain-outage}
use zcastor_agent.Anchor.Nvnm.{Transport, Call, add_record, raised, struct_of, send, chain_record}
use zcastor_agent.Anchor.Nvnm.{backend, classify, is_permanent, sent_from}
use zcastor_agent.Anchor.Nvnm.Guarded.{IsAddressed}

same_text : (s t : String) → str_eq s t ≡ true → s ≡ t
same_text s t h = ground arith

full-given : (s : String) → length (codes s) ≡ 64 → str_eq s "" ≡ false
full-given s h = elim (Bool-cases (str_eq s "")) [
  | inl blank ↦
      let none_left : 0 ≡ 64 = ap (λ u. length (codes u)) (sym (same_text s "" blank)) ∙ h in
      ground (arith, none_left)
  | inr given ↦ given
]

text_same : (s t : String) → s ≡ t → str_eq s t ≡ true
text_same s t h = ground arith

module _ {W : Type 0} (t : Transport W) (clock : W → ℕ × W)
    (hook : PendingRecord → AnchorResult → W → W) where
  chain_record-raised :
      (e : PendingRecord) (w w' : W) (kind what : String)
      → IsAddressed e
      → t.call (add_record (struct_of t e)) w ≡ (raised kind what, w')
      → is_permanent what ≡ false
      → chain_record t e w ≡ (unavailable (append kind (append ": " what)), w')
  unfolding chain_record send sent_from classify
  chain_record-raised e w w' kind what (full, numbered) h p =
      rw (full-given e.checksum full) (rw numbered (rw full (rw h (rw p refl))))

  submit-raised :
      (e : PendingRecord) (w w' : W) (kind what : String)
      → e.op ≡ "add_record"
      → IsAddressed e
      → t.call (add_record (struct_of t e)) w ≡ (raised kind what, w')
      → is_permanent what ≡ false
      → submit (backend t clock hook) e w ≡ (unavailable (append kind (append ": " what)), w')
  unfolding submit backend
  submit-raised e w w' kind what op a h p =
      rw (text_same e.op "add_record" op) (chain_record-raised e w w' kind what a h p)

  -- Every call raises a text with no permanent marker.
  abbrev pub IsDown : Type 0
  IsDown =
      (f : Call) (w : W)
      → (kind : String) × (what : String) × (w' : W) × (t.call f w ≡ (raised kind what, w'))
        × (is_permanent what ≡ false)

  -- A full record that has not landed.
  abbrev pub IsQueued : List String → PendingRecord → Type 0
  IsQueued done e = (e.op ≡ "add_record") × IsAddressed e × (str_mem (dedupe_key e) done ≡ false)

  submit-IsUnreachable :
      (e : PendingRecord)
      → IsDown
      → e.op ≡ "add_record"
      → IsAddressed e
      → IsUnreachable (backend t clock hook) e
  submit-IsUnreachable e down op a w =
      let (kind, what, w', h, p) = down (add_record (struct_of t e)) w in
      (append kind (append ": " what), w', submit-raised e w w' kind what op a h p)

  All-IsStuck :
      (done : List String) (es : List PendingRecord)
      → IsDown
      → All (IsQueued done) es
      → All (IsStuck (backend t clock hook) done) es
  All-IsStuck done [] down h = tt
  All-IsStuck done (e ∷ es) down h =
      ((h.0.2, submit-IsUnreachable e down h.0.0 h.0.1), All-IsStuck done es down h.1)

  -- A drain of full records that have not landed, while every call of the transport raises a text with
  -- no permanent marker, where no limit is set on the attempts: the queue keeps all its entries but
  -- for the attempts, which grow by one in all for each that was due among those the drain took;
  -- nothing is sent, parked, marked as done or written to the file, and the failures are counted.
  pub drain-transient :
      (limit : ℕ) (s : Outbox) (w : W)
      → IsDown
      → s.max_attempts ≡ 0
      → IsFiled s.pending
      → All (IsQueued s.done) (values s.pending)
      → let tried_n = length (due (clock w).0 (take limit (values s.pending))) in
        let (s', w', n) = drain (backend t clock hook) limit s w in
        (cores s'.pending ≡ cores s.pending)
        × (total_attempts s'.pending ≡ total_attempts s.pending + tried_n)
        × (s'.done ≡ s.done)
        × (s'.parked_entries ≡ s.parked_entries)
        × (s'.log ≡ s.log)
        × (n.sent_n ≡ 0)
        × (n.failed_n ≡ tried_n)
  drain-transient limit s w down m f h =
      unfold backend in
      drain-outage (backend t clock hook) limit s w m f
        (All-IsStuck s.done (values s.pending) down h)
