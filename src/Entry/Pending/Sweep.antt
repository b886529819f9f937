-- ===== src/Entry/Pending/Sweep.antt =====
-- zcastor/entry/pending.py: an exhaustion entry fills only after a sweep, and a fresh one only after
-- an earlier touch.
use zcastor_agent.Base.{str_eq, ◌≡◌, refl, Bool, true, false, List, [], ◌∷◌, ◌≢◌, arith, ◌||◌, any}
use zcastor_agent.Base.Int.{ℤ, leb_ℤ}
use zcastor_agent.Entry.Pending.{
  PendingEntry, Move, wait, fill, cancel, is_buy, exhaustion, evaluate, watch, next,
}

-- The price is at the level or beyond it, on the side of the sweep.
abbrev pub sweeps : Bool → ℤ → ℤ → Bool
sweeps true zone p = leb_ℤ p zone
sweeps false zone p = leb_ℤ zone p

-- One price that does not sweep leaves an exhaustion entry unswept, and does not fill it.
exhaustion_unswept :
    (b : Bool) (e : PendingEntry) (p : ℤ)
    → e.swept ≡ false
    → sweeps b e.zone_price p ≡ false
    → let (e', m) = exhaustion b e p in
      (m ≢ fill)
      × (e'.swept ≡ false)
      × (e'.zone_price ≡ e.zone_price)
      × (e'.direction ≡ e.direction)
      × (e'.route_kind ≡ e.route_kind)
unfolding exhaustion
exhaustion_unswept true e p s n = (rw (n, s) (ground arith), rw (n, s), refl, refl, refl)
exhaustion_unswept false e p s n = (rw (n, s) (ground arith), rw (n, s), refl, refl, refl)

or-false : (a b : Bool) → (a || b) ≡ false → (a ≡ false) × (b ≡ false)
or-false a b h = ground arith

evaluate_exhaustion :
    (e : PendingEntry) (p : ℤ)
    → str_eq e.route_kind "exhaustion" ≡ true
    → evaluate e p ≡ exhaustion (is_buy e) e p
unfolding evaluate
evaluate_exhaustion e p x = rw x

next_ne-fill :
    (e : PendingEntry) (m : Move) (rest : PendingEntry × Move)
    → m ≢ fill
    → rest.1 ≢ fill
    → (next e m rest).1 ≢ fill
unfolding next
next_ne-fill e wait rest ne h = h
next_ne-fill e fill rest ne h = absurd (ne refl)
next_ne-fill e cancel rest ne h = λ q. cc

-- While no price has reached the level from the side of the sweep, an exhaustion entry that was not
-- swept before is not filled, whatever the number of cycles.
pub watch-sweep :
    (e : PendingEntry) (ps : List ℤ)
    → str_eq e.route_kind "exhaustion" ≡ true
    → e.swept ≡ false
    → any (sweeps (is_buy e) e.zone_price) ps ≡ false
    → (watch e ps).1 ≢ fill
unfolding watch
watch-sweep e [] x s n = λ q. cc
watch-sweep e (p ∷ ps) x s n =
    let (here, later) = or-false _ _ n in
    let (ne, unswept, zone, dir, kind) = exhaustion_unswept (is_buy e) e p s here in
    let e' = (exhaustion (is_buy e) e p).0 in
    let same : is_buy e' ≡ is_buy e = unfold is_buy in rw dir in
    rw (evaluate_exhaustion e p x) (
      next_ne-fill e' (exhaustion (is_buy e) e p).1 (watch e' ps) ne
        (watch-sweep e' ps (rw kind x) unswept (rw (same, zone) later)))
