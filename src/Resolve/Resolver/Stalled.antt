-- ===== src/Resolve/Resolver/Stalled.antt =====
-- zcastor/resolve/resolver.py: a record without bars is retried, and never scored.
use zcastor_agent.Base.{
  ℕ, ◌+◌, ◌*◌, String, ◌≡◌, refl, sym, ◌∙◌, ap, Bool, not, ◌||◌, ◌⊎◌, Option, none, some, List, [],
  ◌∷◌, keep_if, Bool-cases, inl, inr, ltb, ◌==◌,
}
use zcastor_agent.Resolve.Classify.{Bar}
use zcastor_agent.Resolve.Resolver.{
  ResolverPolicy, Measured, OutcomeResolver, Feed, Tally, resolve_bars, settle, tick_one, tick_all,
  is_due, tick, minute,
}
use zcastor_agent.Resolve.Resolver.Ids.{
  ids, without, is_old, ids-drop, ids-retry, without-cons, without-nil,
}

join :
    (old : Measured → Bool) (r : Measured) (rs : List Measured) (is : List String)
    → without (keep_if old rs) (without (keep_if old (r ∷ [])) is)
      ≡ without (keep_if old (r ∷ rs)) is
join old r rs is = elim (Bool-cases (old r)) [
  | inl gone ↦ rw gone (without-cons r (keep_if old rs) is)
  | inr stays ↦ rw stays (ap (without (keep_if old rs)) (without-nil is))
]

-- The call raises, or it answers no bars.
abbrev pub HasNoBars : Option (List Bar) → Type 0
HasNoBars o = (o ≡ none) ⊎ (o ≡ some [])

resolve_bars-none :
    (cfg : ResolverPolicy) (r : Measured) (o : Option (List Bar))
    → HasNoBars o
    → resolve_bars cfg r o ≡ none
unfolding resolve_bars
resolve_bars-none cfg r o (inl raises) = rw raises refl
resolve_bars-none cfg r o (inr empty) = rw empty refl

module _ {W : Type 0} (f : Feed W)
    (dead : (from to : ℕ) (v : W) → HasNoBars (f.get_rates_range from to v).0) where
  -- What a round does without bars: the record leaves if it is old, and nothing is scored.
  record Waits (now : ℕ) (r : Measured) (s s' : OutcomeResolver) (t t' : Tally) : Type 0 where
    pending :
        ids s'.pending
        ≡ without (keep_if (λ x. is_old s.policy.give_up now x) (r ∷ [])) (ids s.pending)
    outcomes : s'.outcomes ≡ s.outcomes
    none_resolved : t'.resolved ≡ t.resolved
    policy : s'.policy ≡ s.policy

  tick_one-Waits :
      (now : ℕ) (r : Measured) (s : OutcomeResolver) (w : W) (t : Tally)
      → let (s', w', t') = tick_one f now r s w t in Waits now r s s' t t'
  unfolding tick_one settle
  tick_one-Waits now r s w t = elim (Bool-cases (ltb (r.registered_ts + s.policy.give_up) now)) [
    | inl old ↦ rw old (record {
      pending = rw old (ids-drop r s.pending);
      outcomes = refl;
      none_resolved = refl;
      policy = refl;
    })
    | inr young ↦
        rw
          (
            young,
            resolve_bars-none s.policy r _
                (dead r.registered_ts (r.registered_ts + r.horizon_min * minute) w),
          )
          (record {
            pending = rw young (ids-retry r s.pending ∙ sym (without-nil (ids s.pending)));
            outcomes = refl;
            none_resolved = refl;
            policy = refl;
          })
  ]

  tick_all-Waits :
      (now : ℕ) (rs : List Measured) (s : OutcomeResolver) (w : W) (t : Tally)
      → let (s', w', t') = tick_all f now rs s w t in
        (ids s'.pending ≡ without (keep_if (λ x. is_old s.policy.give_up now x) rs) (ids s.pending))
        × (s'.outcomes ≡ s.outcomes)
        × (t'.resolved ≡ t.resolved)
  unfolding tick_all
  tick_all-Waits now [] s w t = (sym (without-nil (ids s.pending)), refl, refl)
  tick_all-Waits now (r ∷ rs) s w t =
      let here = tick_one-Waits now r s w t in
      let (s', w', t') = tick_one f now r s w t in
      let (left, scored, counted) = tick_all-Waits now rs s' w' t' in
      let old = λ (x : Measured). is_old s.policy.give_up now x in
      let first = without (keep_if old (r ∷ [])) (ids s.pending) in
      let rest = ap (without (keep_if old rs)) here.pending in
      let left' : ids (tick_all f now rs s' w' t').0.pending
          ≡ without (keep_if (λ x. is_old s'.policy.give_up now x) rs) (ids s'.pending) =
        left in
      let swap : s'.policy ≡ s.policy = here.policy in
      (
        left'
            ∙ ap
                (λ (p : ResolverPolicy).
                  without (keep_if (λ x. is_old p.give_up now x) rs) (ids s'.pending))
                swap
            ∙ rest
            ∙ join old r rs (ids s.pending),
        scored ∙ here.outcomes,
        counted ∙ here.none_resolved,
      )

  -- While the market has no bars, by an exception or by an empty answer, a cycle scores nothing and drops only records that are due and were
  -- registered longer ago than the resolver waits: all other ids stay pending.
  pub tick-waits :
      (s : OutcomeResolver) (w : W)
      → let now = (f.clock w).0 in
        let due = keep_if (λ r. is_due now r) s.pending in
        let (s', w', t) = tick f s w in
        (ids s'.pending
          ≡ without (keep_if (λ r. is_old s.policy.give_up now r) due) (ids s.pending))
        × (s'.outcomes ≡ s.outcomes)
        × (t.resolved ≡ 0)
  unfolding tick
  tick-waits s w =
      let (now, w') = f.clock w in
      let due = keep_if (λ r. is_due now r) s.pending in
      let start : Tally = record { resolved = 0; abandoned = 0; stalled = 0 } in
      let all = tick_all-Waits now due s w' start in
      let (s', w'', t) = tick_all f now due s w' start in
      elim (Bool-cases (not (t.resolved == 0) || not (t.abandoned == 0))) [
        | inl some_done ↦ rw some_done all
        | inr idle ↦ rw idle all
      ]
