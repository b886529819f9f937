-- ===== src/Anchor/Nvnm/Guarded.antt =====
-- zcastor/anchor/nvnm.py: what reaches the chain, and what its answers mean.
use zcastor_agent.Base.{ℕ, String, Bool, true, false, ◌≡◌, refl, sym, ap, Option, none, some}
use zcastor_agent.Base.{
  ◌==◌, str_eq, length, opt_or, if◌then◌else◌, inl, inr, ◌⊎◌, Bool-cases, arith,
}
use Prim.Native.String.{◌++◌ as append}
use zcastor_agent.Base.Text.{codes, show}
use zcastor_agent.Anchor.Record.{PendingRecord, AnchorResult, Answer, accepted, unavailable, failed}
use zcastor_agent.Anchor.Nvnm.{Transport, Mined, Submitted, raised, mined, add_record, struct_of}
use zcastor_agent.Anchor.Nvnm.{sent_from, send, chain_record, classify, is_permanent, rejected}

-- A record that can be found again: a full hash, and the registry by its number.
abbrev pub IsAddressed : PendingRecord → Type 0
IsAddressed e = (length (codes e.checksum) ≡ 64) × ((e.registry_id == 0) ≡ false)

-- The answers that an accepted one comes from.
abbrev pub IsMined : Submitted → AnchorResult → Type 0
IsMined s r = (m : Mined) × (s ≡ mined m) × (m.status ≡ some 1) × (r.transaction ≡ opt_or m.tx "")

not_accepted :
    {P : Type 0} (b : Bool) (x y : String) (r : AnchorResult)
    → (if b then failed x else unavailable y) ≡ accepted r
    → P
not_accepted true x y r h = cc
not_accepted false x y r h = cc

abbrev result_or : AnchorResult → Answer → AnchorResult
result_or d (accepted r) = r
result_or d (unavailable x) = d
result_or d (failed x) = d

accepted_if :
    (b : Bool) (r r' : AnchorResult) (x : String)
    → (if b then accepted r else failed x) ≡ accepted r'
    → (b ≡ true) × (r ≡ r')
accepted_if true r r' x h = (refl, ap (result_or r) h)
accepted_if false r r' x h = cc

status_one : (o : Option ℕ) → (opt_or o 0 == 1) ≡ true → o ≡ some 1
status_one none h = ground arith
status_one (some n) h = ap some (ground (arith, h))

-- An accepted answer is a transaction that was mined with status 1.
pub sent_from-IsMined :
    (f : String) (n : ℕ) (s : Submitted) (r : AnchorResult)
    → sent_from f n s ≡ accepted r
    → IsMined s r
unfolding sent_from classify
sent_from-IsMined f n (raised kind what) r h = not_accepted (is_permanent what) _ _ r h
sent_from-IsMined f n (mined m) r h =
    let (good, same) = accepted_if (opt_or m.status 0 == 1) _ r _ h in
    (m, refl, status_one m.status good, ap (λ q. q.transaction) (sym same))

module _ {W : Type 0} (t : Transport W) where
  -- An entry either reaches the chain once, as the struct of its own fields, and then it has a full
  -- checksum and a registry number; or it is refused for good and the chain is not asked.
  pub chain_record-IsAddressed :
      (e : PendingRecord) (w : W)
      → (IsAddressed e
          × (chain_record t e w ≡ (
              let (s, w') = t.call (add_record (struct_of t e)) w in
              (sent_from "addRecord" 0 s, w'))))
        ⊎ ((why : String) × (chain_record t e w ≡ (rejected why, w)))
  unfolding chain_record send
  chain_record-IsAddressed e w = elim (Bool-cases (str_eq e.checksum "")) [
    | inl blank ↦ inr ("record has no checksum", rw blank refl)
    | inr given ↦ elim (Bool-cases (e.registry_id == 0)) [
      | inl unnumbered ↦
          inr
            (append "record has no numeric registry_id: " e.registry, rw given (rw unnumbered refl))
      | inr numbered ↦ elim (Bool-cases (length (codes e.checksum) == 64)) [
        | inl full ↦ inl ((ground (arith, full), numbered), rw given (rw numbered (rw full refl)))
        | inr short ↦ inr (
          append "checksum must be 64 hex chars, got " (show (length (codes e.checksum))),
          rw given (rw numbered (rw short refl)),
        )
      ]
    ]
  ]
