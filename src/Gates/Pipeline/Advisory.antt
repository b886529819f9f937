-- ===== src/Gates/Pipeline/Advisory.antt =====
-- zcastor/gates/pipeline.py: what an advisory gate decides changes no outcome.
use zcastor_agent.Base.{
  String, ◌≡◌, refl, ◌∙◌, sym, true, List, [], ◌∷◌, arith, Bool-cases, ◌⊎◌, inl, inr,
}
use zcastor_agent.Gates.Pipeline.{
  Gate, Progress, start, step, run_from, run, settle, apply, skip, judge,
}

-- Two progresses that differ in their results at most.
record SameBut (p q : Progress) : Type 0 where
  action : p.action ≡ q.action
  reason : p.reason ≡ q.reason
  route_kind : p.route_kind ≡ q.route_kind
  routed : p.routed ≡ q.routed
  bound : p.bound ≡ q.bound

module _ {C : Type 0} where
  -- The gates are declared alike and write the context alike; they decide alike, unless advisory.
  pub record IsLike (g h : Gate C) : Type 0 where
    pub name : g.name ≡ h.name
    pub runs : g.runs_when_routed ≡ h.runs_when_routed
    pub expensive : g.expensive ≡ h.expensive
    pub advises : g.advises ≡ h.advises
    pub writes : (c : C) → (g.evaluate c).1 ≡ (h.evaluate c).1
    pub decides : (g.advises ≡ true) ⊎ ((c : C) → (g.evaluate c).0 ≡ (h.evaluate c).0)

  abbrev pub AreLike : List (Gate C) → List (Gate C) → Type 0
  AreLike [] [] = Unit
  AreLike (g ∷ gs) (h ∷ hs) = IsLike g h × AreLike gs hs
  AreLike _ _ = ⊥

  step-SameBut :
      (g h : Gate C) (p q : Progress) (c : C)
      → IsLike g h
      → SameBut p q
      → SameBut (step g p c).0 (step h q c).0
        × ((step g p c).1 ≡ (step h q c).1)
        × ((step g p c).2 ≡ (step h q c).2)
  unfolding apply step skip settle judge
  step-SameBut g h p q c l s = elim l.decides [
    | inl advisory ↦ ground (arith, l.writes c)
    | inr same ↦ ground (arith, l.writes c, same c)
  ]

  run_from-SameBut :
      (gs hs : List (Gate C)) (p q : Progress) (c : C)
      → AreLike gs hs
      → SameBut p q
      → SameBut (run_from gs p c).0 (run_from hs q c).0
        × ((run_from gs p c).1 ≡ (run_from hs q c).1)
  unfolding run_from
  run_from-SameBut [] [] p q c l s = (s, refl)
  run_from-SameBut [] (h ∷ hs) p q c l s = absurd l
  run_from-SameBut (g ∷ gs) [] p q c l s = absurd l
  run_from-SameBut (g ∷ gs) (h ∷ hs) p q c l s =
      let (after, same, more) = step-SameBut g h p q c l.0 s in
      let ih = run_from-SameBut gs hs (step g p c).0 (step h q c).0 (step g p c).1 l.1 after in
      elim (Bool-cases (step g p c).2) [
        | inl e ↦ rw (e, sym more ∙ e) (rw (← same) ih)
        | inr e ↦ rw (e, sym more ∙ e) (after, same)
      ]

  -- Two stacks whose gates are declared alike and write the context alike, and decide alike except
  -- where a gate is advisory, give the same action, reason, kind of route and final context: the
  -- decision of an advisory gate changes nothing but its own entry in the trace.
  pub run-AreLike :
      (gs hs : List (Gate C)) (c : C) (origin_hash signal_id policy_hash : String)
      → AreLike gs hs
      → let (t, c₁) = run gs c origin_hash signal_id policy_hash in
        let (u, c₂) = run hs c origin_hash signal_id policy_hash in
        (t.action ≡ u.action) × (t.reason ≡ u.reason) × (t.route_kind ≡ u.route_kind) × (c₁ ≡ c₂)
  unfolding run
  run-AreLike gs hs c o i h l =
      let (s, e) =
        run_from-SameBut gs hs start start c l (record {
          action = refl;
          reason = refl;
          route_kind = refl;
          routed = refl;
          bound = refl;
        }) in
      (s.action, s.reason, s.route_kind, e)
