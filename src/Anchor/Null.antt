-- ===== src/Anchor/Null.antt =====
-- zcastor/anchor/base.py: `NullBackend`, which accepts every record and touches no chain.
use Prim.Native.String.{◌++◌ as append}
use zcastor_agent.Base.{
  ℕ, List, [], ◌∷◌, ◌++◌, length, All, ◌≡◌, Bool, true, str_eq, ◌||◌, ◌∙◌, refl, arith,
}
use zcastor_agent.Anchor.Record.{PendingRecord, Answer, accepted, Chain, submit}
use zcastor_agent.Anchor.Outbox.{Outbox, Tally, handle, drain_one, drain_all, complete, drop_done}

-- `NullBackend`: what was submitted to it.
pub record NullBackend : Type 0 where
  pub submitted : List PendingRecord

abbrev null_submitted : PendingRecord → NullBackend → NullBackend
null_submitted e b = record { submitted = b.submitted ++ e ∷ [] }

-- `NullBackend.add_record`, which numbers the record by its place.
unfoldable pub null_add_record : PendingRecord → NullBackend → Answer × NullBackend
null_add_record e b =
    let b' = null_submitted e b in
    (
      accepted (record {
        transaction = append "null:" e.id;
        record_id = length b'.submitted;
        index = 1;
      }),
      b',
    )

-- `NullBackend.update_status`
unfoldable pub null_update_status : PendingRecord → NullBackend → Answer × NullBackend
null_update_status e b = (
  accepted (record { transaction = append "null:" e.id; record_id = e.record_id; index = 0 }),
  null_submitted e b,
)

-- The backend behind an outbox whose clock stands at `now` and whose hook does nothing.
abbrev pub null_chain : ℕ → Chain NullBackend
null_chain now = record {
  add_record = null_add_record;
  update_status = null_update_status;
  clock = λ b. (now, b);
  on_anchored = λ e r b. b;
}

abbrev is_known : PendingRecord → Bool
is_known e = str_eq e.op "add_record" || str_eq e.op "update_status"

-- A record with a known operation is appended to what was submitted.
submitted-submit :
    (now : ℕ) (e : PendingRecord) (b : NullBackend)
    → is_known e ≡ true
    → (submit (null_chain now) e b).1.submitted ≡ b.submitted ++ e ∷ []
unfolding submit null_add_record null_update_status
submitted-submit now e b h = ground (arith, h)

drain_one-parked_entries :
    (clock now : ℕ) (e : PendingRecord) (s : Outbox) (b : NullBackend) (t : Tally)
    → is_known e ≡ true
    → (drain_one (null_chain clock) now e s b t).0.parked_entries ≡ s.parked_entries
unfolding drain_one handle submit null_add_record null_update_status complete drop_done
drain_one-parked_entries clock now e s b t h = ground (arith, h)

-- A drain over records with known operations parks none of them.
pub drain_all-parked_entries :
    (clock now : ℕ) (es : List PendingRecord) (s : Outbox) (b : NullBackend) (t : Tally)
    → All (λ e. is_known e ≡ true) es
    → (drain_all (null_chain clock) now es s b t).0.parked_entries ≡ s.parked_entries
unfolding drain_all
drain_all-parked_entries clock now [] s b t h = refl
drain_all-parked_entries clock now (e ∷ es) s b t h =
    let (s', b', t') = drain_one (null_chain clock) now e s b t in
    drain_all-parked_entries clock now es s' b' t' h.1
    ∙ drain_one-parked_entries clock now e s b t h.0
