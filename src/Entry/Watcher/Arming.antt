-- ===== src/Entry/Watcher/Arming.antt =====
-- zcastor/entry/watcher.py: what `arm` files, and what the sweeps leave.
use zcastor_agent.Base.{
  ℕ, ◌+◌, String, ◌≡◌, refl, ◌≢◌, ◌∙◌, ap, sym, Bool, true, false, Option, none, some, List, [],
  ◌∷◌, map, arith, is_some, Bool-cases, inl, inr, ◌⊎◌, All, str_eq, keep_if, ltb, opt_or,
}
use zcastor_agent.Base.Dict.{Dict, lookup, insert, erase, values}
use zcastor_agent.Base.Int.{pos, ◌<ℤ◌, leb_ℤ}
use zcastor_agent.Entry.Pending.{WatcherPolicy, PendingEntry, create}
use zcastor_agent.Entry.Zones.{Derived, derive, signal_buy}
use zcastor_agent.Entry.Zones.Geometry.{IsSound, derive-IsSound}
use zcastor_agent.Entry.Watcher.{
  Desk, EntryWatcher, ArmSignal, ArmDerived, not_armed, armed, arm_price, arm_direction, arm_route,
  arm_at, arm, cancel, cancel_all, stale, sweep_day, sweep,
}
use zcastor_agent.Entry.Watcher.Filed.{IsFiled, cancel-pending, erase-insert_new}

-- What holds where an entry was armed on a derived zone.
record IsArmed (id : String) (before after : Dict PendingEntry) (e : PendingEntry) (z : Derived)
    : Type 0 where
  new : lookup id before ≡ none
  filed : after ≡ insert id e before
  id_kept : e.signal_id ≡ id
  zone : e.zone_price ≡ z.zone_price
  stop : e.stop_price ≡ z.stop_price
  fresh : (e.reached_zone ≡ false) × (e.swept ≡ false)

none_of_is_some : (o : Option PendingEntry) → is_some o ≡ false → o ≡ none
none_of_is_some none h = refl
none_of_is_some (some e) h = cc

made-IsArmed :
    (now : ℕ) (id : String) (s : ArmSignal) (kind : String) (d : ArmDerived) (z : Derived)
    (cfg : WatcherPolicy) (p : Dict PendingEntry)
    → lookup id p ≡ none
    → let e =
        create cfg now id
          (arm_direction s d)
          z.zone_price
          z.stop_price
          (opt_or s.timeframe "1h")
          (opt_or s.session "")
          (arm_route kind) in
      IsArmed id p (insert id e p) e z
unfolding create
made-IsArmed now id s kind d z cfg p h = record {
  new = h;
  filed = refl;
  id_kept = refl;
  zone = refl;
  stop = refl;
  fresh = (refl, refl);
}

module _ {W : Type 0} (b : Desk W) where
  arm_at-IsArmed :
      (o : Option Derived) (id : String) (s : ArmSignal) (kind : String) (d : ArmDerived)
      (wt : EntryWatcher) (w : W) {e : PendingEntry} {z : Derived}
      → (arm_at b o id s kind d wt w).0 ≡ armed e z
      → (o ≡ some z) × IsArmed id wt.pending (arm_at b o id s kind d wt w).1.pending e z
  unfolding arm_at
  arm_at-IsArmed none id s kind d wt w h = cc
  arm_at-IsArmed (some x) id s kind d wt w {e} {z} h =
      let (now, w') = b.clock w in
      let made =
        create wt.policy now id (arm_direction s d) x.zone_price x.stop_price
          (opt_or s.timeframe "1h") (opt_or s.session "") (arm_route kind) in
      elim (Bool-cases (is_some (lookup id wt.pending))) [
        | inl old ↦ ground (arith, old)
        | inr new ↦
            let ends : armed made x ≡ armed e z = ground (arith, new) in
            let same : made ≡ e = cc in
            let zone : x ≡ z = cc in
            rw (new, ← zone, ← same)
              (
                refl,
                made-IsArmed now id s kind d x wt.policy wt.pending
                    (none_of_is_some (lookup id wt.pending) new),
              )
      ]

  arm_low :
      (id : String) (s : ArmSignal) (kind : String) (d : ArmDerived) (wt : EntryWatcher) (w : W)
      → leb_ℤ (arm_price d) (pos 0) ≡ true
      → (arm b id s kind d wt w).0 ≡ not_armed "no price to arm against"
  unfolding arm
  arm_low id s kind d wt w low = rw low

  arm_high :
      (id : String) (s : ArmSignal) (kind : String) (d : ArmDerived) (wt : EntryWatcher) (w : W)
      → leb_ℤ (arm_price d) (pos 0) ≡ false
      → arm b id s kind d wt w ≡ arm_at b (derive wt.zones s.levels (arm_price d)) id s kind d wt w
  unfolding arm
  arm_high id s kind d wt w high = rw high

  arm-IsArmed :
      (id : String) (s : ArmSignal) (kind : String) (d : ArmDerived) (wt : EntryWatcher) (w : W)
      {e : PendingEntry} {z : Derived}
      → (arm b id s kind d wt w).0 ≡ armed e z
      → (pos 0 <ℤ arm_price d)
        × (derive wt.zones s.levels (arm_price d) ≡ some z)
        × IsArmed id wt.pending (arm b id s kind d wt w).1.pending e z
  arm-IsArmed id s kind d wt w {e} {z} h = elim (Bool-cases (leb_ℤ (arm_price d) (pos 0))) [
    | inl low ↦ let ends = arm_low id s kind d wt w low in cc
    | inr high ↦
        let same = arm_high id s kind d wt w high in
        let (zone, filed) =
          arm_at-IsArmed (derive wt.zones s.levels (arm_price d)) id s kind d wt w
            (ap (λ r. r.0) (sym same) ∙ h) in
        let price : pos 0 <ℤ arm_price d = ground arith in (price, zone, rw same filed)
  ]

  -- Where `arm` reports an entry as armed, the price is positive, the zone is sound for the signal at
  -- this price, the entry carries the level and the stop of the zone, untouched and unswept, and
  -- it is filed under the id, which was free.
  pub arm-IsSound :
      (id : String) (s : ArmSignal) (kind : String) (d : ArmDerived) (wt : EntryWatcher) (w : W)
      {e : PendingEntry} {z : Derived}
      → (arm b id s kind d wt w).0 ≡ armed e z
      → (pos 0 <ℤ arm_price d)
        × IsSound wt.zones (signal_buy s.levels) (arm_price d) z
        × (e.zone_price ≡ z.zone_price)
        × (e.stop_price ≡ z.stop_price)
        × ((e.reached_zone ≡ false) × (e.swept ≡ false))
        × (lookup id wt.pending ≡ none)
        × ((arm b id s kind d wt w).1.pending ≡ insert id e wt.pending)
  arm-IsSound id s kind d wt w {e} {z} h =
      let (price, zone, a) = arm-IsArmed id s kind d wt w h in
      (
        price,
        derive-IsSound wt.zones s.levels (arm_price d) zone,
        a.zone,
        a.stop,
        a.fresh,
        a.new,
        a.filed,
      )

  -- Cancelling an entry that was just armed leaves the pending entries as they were before.
  pub cancel-arm :
      (id : String) (s : ArmSignal) (kind : String) (d : ArmDerived) (reason : String)
      (wt : EntryWatcher) (w : W) {e : PendingEntry} {z : Derived}
      → (arm b id s kind d wt w).0 ≡ armed e z
      → let (a, wt', w') = arm b id s kind d wt w in
        (cancel b id reason wt' w').1.pending ≡ wt.pending
  cancel-arm id s kind d reason wt w {e} {z} h =
      let (price, zone, a) = arm-IsArmed id s kind d wt w h in
      let (answer, wt', w') = arm b id s kind d wt w in
      cancel-pending b id reason wt' w'
      ∙ ap (erase id) a.filed
      ∙ erase-insert_new id e wt.pending a.new

  -- `cancel_all` as a loop over the pending ones alone.
  abbrev erase_all : List String → Dict PendingEntry → Dict PendingEntry
  erase_all [] p = p
  erase_all (id ∷ ids) p = erase_all ids (erase id p)

  cancel_all-pending :
      (ids : List String) (reason : String) (wt : EntryWatcher) (w : W)
      → (cancel_all b ids reason wt w).0.pending ≡ erase_all ids wt.pending
  unfolding cancel_all
  cancel_all-pending [] reason wt w = refl
  cancel_all-pending (id ∷ ids) reason wt w =
      let (done, wt', w') = cancel b id reason wt w in
      cancel_all-pending ids reason wt' w' ∙ ap (erase_all ids) (cancel-pending b id reason wt w)

  erase_all-keys : (p : Dict PendingEntry) → erase_all (map (λ x. x.0) p) p ≡ []
  erase_all-keys [] = refl
  erase_all-keys ((j, e) ∷ p) = ground (arith, erase_all-keys p)

  -- Once the day has changed, a watcher that closes at the day boundary holds no entry after the
  -- sweep of the boundary.
  pub sweep_day-empty :
      (wt : EntryWatcher) (w : W)
      → wt.day_boundary_close ≡ true
      → str_eq (b.today w).0 wt.armed_day ≡ false
      → (sweep_day b wt w).0.pending ≡ []
  unfolding sweep_day
  sweep_day-empty wt w closes new =
      let gone =
        cancel_all-pending (map (λ x. x.0) wt.pending) "day_boundary" wt (b.today w).1
        ∙ erase_all-keys wt.pending in
      ground (arith, closes, new, gone)

  erase_all-cons :
      (ids : List String) (j : String) (e : PendingEntry) (p : Dict PendingEntry)
      → All (λ i. i ≢ j) ids
      → erase_all ids ((j, e) ∷ p) ≡ (j, e) ∷ erase_all ids p
  erase_all-cons [] j e p h = refl
  erase_all-cons (i ∷ ids) j e p h = ground (arith, h.0, erase_all-cons ids j e (erase i p) h.1)

  ids_differ :
      (old : PendingEntry → Bool) (j : String) (p : Dict PendingEntry)
      → IsFiled p
      → lookup j p ≡ none
      → All (λ i. i ≢ j) (map (λ e. e.signal_id) (keep_if old (values p)))
  ids_differ old j [] f h = tt
  ids_differ old j ((i, v) ∷ p) f h =
      let rest = ids_differ old j p f.2 (ground arith) in
      let here : v.signal_id ≢ j = λ q. ground (arith, sym f.0 ∙ q) in
      elim (Bool-cases (old v)) [ inl out ↦ rw out (here, rest) | inr stays ↦ rw stays rest ]

  erase_all-old :
      (old : PendingEntry → Bool) (p : Dict PendingEntry)
      → IsFiled p
      → All
          (λ e. old e ≡ false)
          (values (erase_all (map (λ e. e.signal_id) (keep_if old (values p))) p))
  erase_all-old old [] f = tt
  erase_all-old old ((j, e) ∷ p) f = elim (Bool-cases (old e)) [
    | inl out ↦ rw out (ground (arith, f.0, erase_all-old old p f.2))
    | inr stays ↦
        rw stays (
          rw (erase_all-cons _ j e p (ids_differ old j p f.2 f.1)) (stays, erase_all-old old p f.2))
  ]

  sweep_day-pending :
      (wt : EntryWatcher) (w : W)
      → ((sweep_day b wt w).0.pending ≡ wt.pending) ⊎ ((sweep_day b wt w).0.pending ≡ [])
  unfolding sweep_day
  sweep_day-pending wt w =
      let gone =
        cancel_all-pending (map (λ x. x.0) wt.pending) "day_boundary" wt (b.today w).1
        ∙ erase_all-keys wt.pending in
      elim (Bool-cases wt.day_boundary_close) [
        | inr never ↦ ground (arith, never)
        | inl closes ↦ elim (Bool-cases (str_eq (b.today w).0 wt.armed_day)) [
          | inl same ↦ ground (arith, closes, same)
          | inr new ↦ ground (arith, closes, new, gone)
        ]
      ]

  -- After a sweep of entries that are filed under their ids, no entry that is pending was armed
  -- longer ago than the longest hold, by the clock as the sweep read it.
  pub sweep-IsCurrent :
      (wt : EntryWatcher) (w : W)
      → IsFiled wt.pending
      → All
          (λ e. ltb (e.created_ts + wt.max_hold) (b.clock w).0 ≡ false)
          (values (sweep b wt w).0.pending)
  unfolding sweep
  sweep-IsCurrent wt w f =
      let (now, w₁) = b.clock w in
      let (wt', w₂) = cancel_all b (stale now wt) "max_hold" wt w₁ in
      let kept = erase_all-old (λ e. ltb (e.created_ts + wt.max_hold) now) wt.pending f in
      let left : wt'.pending ≡ erase_all (stale now wt) wt.pending =
        cancel_all-pending (stale now wt) "max_hold" wt w₁ in
      elim (sweep_day-pending wt' w₂) [
        | inl same ↦ rw (same, left) kept
        | inr none_left ↦ rw none_left tt
      ]
