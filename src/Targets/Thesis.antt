-- ===== src/Targets/Thesis.antt =====
-- zcastor/targets/optimizer.py: what the stop and the target promise together.
use zcastor_agent.Base.{Bool, true, false, Option, none, some, ◌≡◌, refl}
use zcastor_agent.Base.{inl, inr, ◌⊎◌, arith, str_eq, if◌then◌else◌, Bool-cases}
use zcastor_agent.Targets.{TargetSignal, TargetOptimizer, bounds, direction_of}
use zcastor_agent.Targets.Floats.{Number, clamp, max_of, min_of}
use zcastor_agent.Targets.Stop.{sl_pts, blended_stop, timeframe_of, entry_of, unusable, compute_sl}
use zcastor_agent.Targets.Target.{first_target, target_pts, under_cap, ceiling_of, compute_tp}

-- A property of both branches.
either {ℓ} : {X : Type ℓ} (P : X → Type 0) (b : Bool) (x y : X) → P x → P y → P (if b then x else y)
either P true x y p q = p
either P false x y p q = q

module _ {ℓ} {A : Type ℓ} ⦃n : Number A⦄ where
  infix 50 ◌≼◌
  abbrev pub ◌≼◌ : A → A → Type 0
  a ≼ b = n.leb a b ≡ true

  ≼_refl : (a : A) → a ≼ a
  ≼_refl a = elim (n.leb_total a a) [ inl h ↦ h | inr h ↦ h ]

  ≼_other : (a b : A) → n.leb a b ≡ false → b ≼ a
  ≼_other a b f = elim (n.leb_total a b) [ inl h ↦ cc | inr h ↦ h ]

  ≼-max_of_left : (a b : A) → a ≼ max_of a b
  unfolding max_of
  ≼-max_of_left a b = elim (Bool-cases (n.leb b a)) [
    | inl h ↦ rw h (≼_refl a)
    | inr h ↦ rw h (≼_other b a h)
  ]

  ≼-max_of_right : (a b : A) → b ≼ max_of a b
  unfolding max_of
  ≼-max_of_right a b = elim (Bool-cases (n.leb b a)) [ inl h ↦ rw h h | inr h ↦ rw h (≼_refl b) ]

  max_of-≼ : (a b c : A) → a ≼ c → b ≼ c → max_of a b ≼ c
  unfolding max_of
  max_of-≼ a b c p q = elim (Bool-cases (n.leb b a)) [ inl h ↦ rw h p | inr h ↦ rw h q ]

  min_of-≼_left : (a b : A) → min_of a b ≼ a
  unfolding min_of
  min_of-≼_left a b = elim (Bool-cases (n.leb a b)) [
    | inl h ↦ rw h (≼_refl a)
    | inr h ↦ rw h (≼_other a b h)
  ]

  min_of-≼_right : (a b : A) → min_of a b ≼ b
  unfolding min_of
  min_of-≼_right a b = elim (Bool-cases (n.leb a b)) [ inl h ↦ rw h h | inr h ↦ rw h (≼_refl b) ]

  abbrev Between : A → A → A → Type 0
  Between lo hi x = (lo ≼ x) × (x ≼ hi)

  clamp-Between : (lo hi x : A) → lo ≼ hi → Between lo hi (clamp lo hi x)
  clamp-Between lo hi x h =
      (≼-max_of_left lo (min_of hi x), max_of-≼ lo (min_of hi x) hi h (min_of-≼_left hi x))

  abbrev pub lower_bound : TargetOptimizer A → TargetSignal A → A
  lower_bound o s = (bounds o (timeframe_of s)).0

  abbrev pub upper_bound : TargetOptimizer A → TargetSignal A → A
  upper_bound o s = (bounds o (timeframe_of s)).1

  sl_pts-Between :
      (o : TargetOptimizer A) (s : TargetSignal A)
      → lower_bound o s ≼ upper_bound o s
      → Between (lower_bound o s) (upper_bound o s) (sl_pts o s)
  unfolding sl_pts blended_stop
  sl_pts-Between o s h =
      either (Between (lower_bound o s) (upper_bound o s)) _ _ _
        (clamp-Between (lower_bound o s) (upper_bound o s) _ h)
        (clamp-Between (lower_bound o s) (upper_bound o s) _ h)

  -- From the floor to the larger of the ceiling and the floor.
  abbrev InWindow : A → A → A → Type 0
  InWindow floor ceiling x = Between floor (max_of ceiling floor) x

  InWindow-floor : (floor ceiling : A) → InWindow floor ceiling floor
  InWindow-floor f c = (≼_refl f, ≼-max_of_right c f)

  -- Lowered by a cap and lifted to the floor again, a value stays in the window.
  InWindow-max_of :
      (floor ceiling x : A) → x ≼ max_of ceiling floor → InWindow floor ceiling (max_of x floor)
  InWindow-max_of f c x h = (≼-max_of_right x f, max_of-≼ x f (max_of c f) h (≼-max_of_right c f))

  InWindow-under_cap :
      (o : TargetOptimizer A) (r : Option A) (listed : Bool) (stop ceiling x : A)
      → InWindow (n.mul stop o.min_rr) ceiling x
      → InWindow (n.mul stop o.min_rr) ceiling (under_cap o r listed stop x)
  unfolding under_cap
  InWindow-under_cap o none listed stop c x h = h
  InWindow-under_cap o (some limit) listed stop c x h =
      either (InWindow (n.mul stop o.min_rr) c) _ _ _
        (InWindow-max_of (n.mul stop o.min_rr) c (min_of x (n.mul stop limit))
          (n.leb_trans _ x _ (min_of-≼_left x (n.mul stop limit)) h.1))
        h

  target_pts-InWindow :
      (o : TargetOptimizer A) (s : TargetSignal A) (stop : A)
      → InWindow (n.mul stop o.min_rr) (ceiling_of o s) (target_pts o s stop)
  unfolding target_pts
  target_pts-InWindow o s stop =
      let floor = n.mul stop o.min_rr in
      let c = ceiling_of o s in
      either (InWindow floor c) _ _ _ (InWindow-floor floor c) (
        InWindow-under_cap o _ _ stop c _ (
          InWindow-max_of floor c (min_of (first_target o s stop) c)
            (n.leb_trans _ c _ (min_of-≼_right (first_target o s stop) c) (≼-max_of_left c floor))))

  abbrev pub stop_price : TargetSignal A → Option A → A → A
  stop_price s fallback stop =
      if str_eq (direction_of s) "UP"
      then n.sub (entry_of s fallback) stop
      else n.add (entry_of s fallback) stop

  abbrev pub target_price : TargetSignal A → Option A → A → A
  target_price s fallback target =
      if str_eq (direction_of s) "UP"
      then n.add (entry_of s fallback) target
      else n.sub (entry_of s fallback) target

  abbrev Stopped : TargetOptimizer A → TargetSignal A → Option A → A → Type ℓ
  Stopped o s fallback stop = compute_sl o s fallback ≡ some (stop_price s fallback stop)

  abbrev Targeted : TargetOptimizer A → TargetSignal A → Option A → A → Type ℓ
  Targeted o s fallback target = compute_tp o s fallback ≡ some (target_price s fallback target)

  -- There is nothing to trade: no entry price, or no direction.
  abbrev pub IsBlank : TargetSignal A → Option A → Type 0
  IsBlank s fallback =
      (entry_of s fallback ≼ n.decimal 0 0)
      ⊎ ((str_eq (direction_of s) "UP" ≡ false) × (str_eq (direction_of s) "DOWN" ≡ false))

  abbrev pub IsPriced : TargetSignal A → Option A → Type 0
  IsPriced s fallback =
      (n.leb (entry_of s fallback) (n.decimal 0 0) ≡ false)
      × ((str_eq (direction_of s) "UP" ≡ true) ⊎ (str_eq (direction_of s) "DOWN" ≡ true))

  unusable-IsBlank :
      (s : TargetSignal A) (fallback : Option A) → unusable s fallback ≡ true → IsBlank s fallback
  unusable-IsBlank s fallback h = ground arith

  unusable-IsPriced :
      (s : TargetSignal A) (fallback : Option A) → unusable s fallback ≡ false → IsPriced s fallback
  unusable-IsPriced s fallback h = ground arith

  -- Both branches of the direction: the stop on the losing side, the target on the winning one.
  abbrev Straddles : Bool → A → A → A → Type 0
  Straddles up sl entry tp = ((if up then sl else tp) ≼ entry) × (entry ≼ (if up then tp else sl))

  Straddles-placed :
      (up : Bool) (entry stop target : A)
      → n.decimal 0 0 ≼ stop
      → n.decimal 0 0 ≼ target
      → Straddles up
          (if up then n.sub entry stop else n.add entry stop)
          entry
          (if up then n.add entry target else n.sub entry target)
  Straddles-placed true e stop target p q = (n.leb-sub e stop p, n.leb-add e target q)
  Straddles-placed false e stop target p q = (n.leb-sub e target q, n.leb-add e stop p)

  -- What the two prices are to be, on a blank signal and on one that is priced.
  abbrev pub IsThesis : TargetOptimizer A → TargetSignal A → Option A → Type ℓ
  IsThesis o s fallback =
      (IsBlank s fallback × (compute_sl o s fallback ≡ none) × (compute_tp o s fallback ≡ none))
      ⊎ (IsPriced s fallback
          × ((stop : A) × (target : A) × Stopped o s fallback stop
              × Targeted o s fallback target
              × Between (lower_bound o s) (upper_bound o s) stop
              × InWindow (n.mul stop o.min_rr) (ceiling_of o s) target
              × Straddles (str_eq (direction_of s) "UP") (stop_price s fallback stop)
                  (entry_of s fallback) (target_price s fallback target)))

  -- Where the bounds of the timeframe are in order and neither they nor the minimum multiple are
  -- negative: without a positive entry price or without a direction there is neither a stop nor a
  -- target. With both, the stop lies within the bounds of the timeframe, the target from the minimum
  -- multiple of the stop to the larger of the ceiling and that multiple, and the entry between the two
  -- prices, the stop on the losing side.
  pub targets-IsThesis :
      (o : TargetOptimizer A) (s : TargetSignal A) (fallback : Option A)
      → n.decimal 0 0 ≼ lower_bound o s
      → lower_bound o s ≼ upper_bound o s
      → n.decimal 0 0 ≼ o.min_rr
      → IsThesis o s fallback
  unfolding compute_sl compute_tp
  targets-IsThesis o s fallback z h m = elim (Bool-cases (unusable s fallback)) [
    | inl bad ↦ inl (unusable-IsBlank s fallback bad, rw bad refl, rw bad refl)
    | inr usable ↦
        let stop = sl_pts-Between o s h in
        let target = target_pts-InWindow o s (sl_pts o s) in
        let positive = n.leb_trans _ _ _ z stop.0 in
        inr (
          unusable-IsPriced s fallback usable,
          (
            sl_pts o s,
            target_pts o s (sl_pts o s),
            rw usable refl,
            rw usable refl,
            stop,
            target,
            Straddles-placed (str_eq (direction_of s) "UP") (entry_of s fallback) (sl_pts o s)
                (target_pts o s (sl_pts o s)) positive
                (n.leb_trans _ _ _ (n.leb-mul _ _ positive m) target.0),
          ),
        )
  ]
