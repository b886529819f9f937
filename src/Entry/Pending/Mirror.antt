-- ===== src/Entry/Pending/Mirror.antt =====
-- zcastor/entry/pending.py: the two directions are mirror images.
use zcastor_agent.Base.{String, str_eq, ◌≡◌, true, false, arith, Bool-cases, inl, inr}
use zcastor_agent.Base.Int.{ℤ, neg, leb-neg, neg-add, neg-sub}
use zcastor_agent.Entry.Pending.{PendingEntry, is_buy, exhaustion, fresh, evaluate}

-- The same entry with the levels reflected at zero and another direction.
abbrev pub mirror : String → PendingEntry → PendingEntry
mirror d e = record e {
  direction = d;
  zone_price = neg e.zone_price;
  stop_price = neg e.stop_price;
}

exhaustion-mirror :
    (e : PendingEntry) (d : String) (p : ℤ)
    → is_buy e ≡ true
    → is_buy (mirror d e) ≡ false
    → exhaustion false (mirror d e) (neg p)
      ≡ (mirror d (exhaustion true e p).0, (exhaustion true e p).1)
unfolding exhaustion
exhaustion-mirror e d p b s = rw (b, s) (simp (neg-add, neg-sub, leb-neg))

fresh-mirror :
    (e : PendingEntry) (d : String) (p : ℤ)
    → is_buy e ≡ true
    → is_buy (mirror d e) ≡ false
    → fresh false (mirror d e) (neg p) ≡ (mirror d (fresh true e p).0, (fresh true e p).1)
unfolding fresh
fresh-mirror e d p b s = rw (b, s) (simp (neg-add, neg-sub, leb-neg) (ground arith))

-- A buy entry and the sell entry with reflected levels make the same move at reflected prices, on
-- both routes, and the entries that they leave are mirror images again.
pub mirror-evaluate :
    (e : PendingEntry) (d : String) (p : ℤ)
    → is_buy e ≡ true
    → is_buy (mirror d e) ≡ false
    → evaluate (mirror d e) (neg p) ≡ (mirror d (evaluate e p).0, (evaluate e p).1)
unfolding evaluate
mirror-evaluate e d p b s = elim (Bool-cases (str_eq e.route_kind "exhaustion")) [
  | inl sweep ↦ rw (sweep, b, s) (exhaustion-mirror e d p b s)
  | inr hold ↦ rw (hold, b, s) (fresh-mirror e d p b s)
]
