-- ===== src/Resolve/Resolver/Cycle.antt =====
-- zcastor/resolve/resolver.py: what a cycle does to the records that are due.
use zcastor_agent.Base.{
  ℕ, ◌+◌, ◌*◌, ◌≡◌, refl, sym, ◌∙◌, ap, not, ◌||◌, Option, some, List, [], ◌∷◌, keep_if, length,
  length-append, arith, Bool-cases, inl, inr, ltb, ◌==◌,
}
use mathlib.Core.Path.{subst}
use zcastor_agent.Resolve.Classify.{Bar, Judgement, classify}
use zcastor_agent.Resolve.Resolver.{
  ResolverPolicy, Measured, OutcomeResolver, Feed, Tally, resolve_bars, complete, settle, tick_one,
  tick_all, is_due, tick, minute,
}
use zcastor_agent.Resolve.Resolver.Ids.{ids, without, ids-drop, without-cons, without-nil}

abbrev pub HasBars : Option (List Bar) → Type 0
HasBars o = (b : Bar) × (bs : List Bar) × (o ≡ some (b ∷ bs))

module _ {W : Type 0} (f : Feed W) where
  resolve_bars-HasBars :
      (cfg : ResolverPolicy) (r : Measured) (o : Option (List Bar))
      → HasBars o
      → (v : Judgement) × (resolve_bars cfg r o ≡ some v)
  unfolding resolve_bars classify
  resolve_bars-HasBars cfg r o (b, bs, e) =
      subst (λ x. (v : Judgement) × (resolve_bars cfg r x ≡ some v)) (sym e) (_, refl)

  -- What a round on a record that leaves does.
  record Leaves (r : Measured) (s s' : OutcomeResolver) (t t' : Tally) : Type 0 where
    pending : ids s'.pending ≡ without (r ∷ []) (ids s.pending)
    ended : t'.resolved + t'.abandoned ≡ t.resolved + t.abandoned + 1
    none_stalled : t'.stalled ≡ t.stalled
    outcomes : length s'.outcomes + t.resolved ≡ length s.outcomes + t'.resolved
    policy : s'.policy ≡ s.policy

  settle-Leaves :
      (v : Judgement) (r : Measured) (s : OutcomeResolver) (w : W) (t : Tally)
      → let (s', w', t') = settle f (some v) r s w t in Leaves r s s' t t'
  unfolding settle complete
  settle-Leaves v r s w t = record {
    pending = ids-drop r s.pending;
    ended = omega arith;
    none_stalled = refl;
    outcomes = omega (arith, length-append s.outcomes (_ ∷ []));
    policy = refl;
  }

  tick_one-Leaves :
      (now : ℕ) (r : Measured) (s : OutcomeResolver) (w : W) (t : Tally)
      → ((from to : ℕ) (v : W) → HasBars (f.get_rates_range from to v).0)
      → let (s', w', t') = tick_one f now r s w t in Leaves r s s' t t'
  unfolding tick_one
  tick_one-Leaves now r s w t live =
      elim (Bool-cases (ltb (r.registered_ts + s.policy.give_up) now)) [
        | inl old ↦ rw old (record {
          pending = ids-drop r s.pending;
          ended = omega arith;
          none_stalled = refl;
          outcomes = refl;
          policy = refl;
        })
        | inr young ↦
            let (bars, w') =
              f.get_rates_range r.registered_ts (r.registered_ts + r.horizon_min * minute) w in
            let (v, e) =
              resolve_bars-HasBars s.policy r bars
                (live r.registered_ts (r.registered_ts + r.horizon_min * minute) w) in
            rw (young, e) (settle-Leaves v r s w' t)
      ]

  tick_all-Leaves :
      (now : ℕ) (rs : List Measured) (s : OutcomeResolver) (w : W) (t : Tally)
      → ((from to : ℕ) (v : W) → HasBars (f.get_rates_range from to v).0)
      → let (s', w', t') = tick_all f now rs s w t in
        (ids s'.pending ≡ without rs (ids s.pending))
        × (t'.resolved + t'.abandoned ≡ t.resolved + t.abandoned + length rs)
        × (t'.stalled ≡ t.stalled)
        × (length s'.outcomes + t.resolved ≡ length s.outcomes + t'.resolved)
  unfolding tick_all
  tick_all-Leaves now [] s w t live = (sym (without-nil (ids s.pending)), omega arith, refl, refl)
  tick_all-Leaves now (r ∷ rs) s w t live =
      let here = tick_one-Leaves now r s w t live in
      let (s', w', t') = tick_one f now r s w t in
      let (left, ended, stalled, grown) = tick_all-Leaves now rs s' w' t' live in
      (
        left ∙ ap (without rs) here.pending ∙ without-cons r rs (ids s.pending),
        omega (arith, ended, here.ended),
        stalled ∙ here.none_stalled,
        omega (arith, grown, here.outcomes),
      )

  abbrev nothing_yet : Tally
  nothing_yet = record { resolved = 0; abandoned = 0; stalled = 0 }

  -- Where the market has bars for every window, a cycle ends the measurement of every record that is
  -- due, as resolved or as given up, with one more outcome for each that is resolved; it stalls on none,
  -- and the ids that were not due stay pending, in their order.
  pub tick-resolves :
      (s : OutcomeResolver) (w : W)
      → ((from to : ℕ) (v : W) → HasBars (f.get_rates_range from to v).0)
      → let due = keep_if (λ r. is_due (f.clock w).0 r) s.pending in
        let (s', w', t) = tick f s w in
        (ids s'.pending ≡ without due (ids s.pending))
        × (t.resolved + t.abandoned ≡ length due)
        × (t.stalled ≡ 0)
        × (length s'.outcomes ≡ length s.outcomes + t.resolved)
  unfolding tick
  tick-resolves s w live =
      let (now, w') = f.clock w in
      let due = keep_if (λ r. is_due now r) s.pending in
      let (left, ended, stalled, grown) = tick_all-Leaves now due s w' nothing_yet live in
      let (s', w'', t) = tick_all f now due s w' nothing_yet in
      elim (Bool-cases (not (t.resolved == 0) || not (t.abandoned == 0))) [
        | inl some_done ↦ rw some_done (left, omega (arith, ended), stalled, omega (arith, grown))
        | inr idle ↦ rw idle (left, omega (arith, ended), stalled, omega (arith, grown))
      ]
