-- ===== src/Gates/Pipeline/Named.antt =====
-- zcastor/gates/pipeline.py: the gate that a trace names as binding, where a later one overrules it.
use mathlib.Core.List.{append_assoc}
use zcastor_agent.Base.{
  String, ◌≡◌, refl, sym, ap, ◌∙◌, true, false, Option, none, some, List, [], ◌∷◌, ◌++◌, arith,
  is_some, Bool-cases, inl, inr, find_first, Option-cases, if◌then◌else◌,
}
use zcastor_agent.Gates.Verdict.{
  allow, route, GateResult, is_binding, binding, Decision, binding_result,
}
use zcastor_agent.Gates.Pipeline.{
  Gate, Progress, start, step, run_from, run, settle, apply, skip, judge, decided, result,
}
use zcastor_agent.Gates.Pipeline.Action.{
  IsRefusal, IsFirm, Objects, run-Objects, last_binding, action-eq-last_binding,
}

-- The first result that is marked as binding.
abbrev named : List GateResult → Option GateResult
named = find_first (λ r. is_binding r.status)

named-snoc_some :
    (xs : List GateResult) (r x : GateResult) → named xs ≡ some x → named (xs ++ r ∷ []) ≡ some x
named-snoc_some [] r x h = cc
named-snoc_some (y ∷ xs) r x h = ground (arith, named-snoc_some xs r x)

named-snoc_none :
    (xs : List GateResult) (r : GateResult)
    → named xs ≡ none
    → named (xs ++ r ∷ []) ≡ (if is_binding r.status then some r else none)
named-snoc_none [] r h = refl
named-snoc_none (y ∷ xs) r h = ground (arith, named-snoc_none xs r)

-- While nothing has bound, the loop has neither routed nor bound.
abbrev IsTold : Progress → Type 0
IsTold p = named p.results ≡ none → (p.routed ≡ false) × (p.bound ≡ none)

module _ {C : Type 0} where
  run_from-more :
      (g : Gate C) (gs : List (Gate C)) (p : Progress) (c : C)
      → (step g p c).2 ≡ true
      → run_from (g ∷ gs) p c ≡ run_from gs (step g p c).0 (step g p c).1
  unfolding run_from
  run_from-more g gs p c h = rw h refl

  run_from-stop :
      (g : Gate C) (gs : List (Gate C)) (p : Progress) (c : C)
      → (step g p c).2 ≡ false
      → run_from (g ∷ gs) p c ≡ ((step g p c).0, (step g p c).1)
  unfolding run_from
  run_from-stop g gs p c h = rw h refl

  step-named :
      (g : Gate C) (p : Progress) (c : C) (x : GateResult)
      → named p.results ≡ some x
      → named (step g p c).0.results ≡ some x
  unfolding step
  step-named g p c x h = grind (arith, named-snoc_some)

  step-IsTold_fresh :
      (g : Gate C) (p : Progress) (c : C)
      → named p.results ≡ none
      → (p.routed ≡ false) × (p.bound ≡ none)
      → IsTold (step g p c).0
  unfolding step skip apply settle
  step-IsTold_fresh g p c f h n = grind (arith, named-snoc_none)

  step-IsTold : (g : Gate C) (p : Progress) (c : C) → IsTold p → IsTold (step g p c).0
  unfolding step
  step-IsTold g p c h n = elim (Option-cases (named p.results)) [
    | inl fresh ↦ step-IsTold_fresh g p c fresh (h fresh) n
    | inr (x, old) ↦ let kept = step-named g p c x old in cc
  ]

  step-binds :
      (g : Gate C) (p : Progress) (c : C)
      → named p.results ≡ none
      → (step g p c).2 ≡ false
      → is_some (named (step g p c).0.results) ≡ true
  unfolding step skip apply settle
  step-binds g p c h s = grind (arith, named-snoc_none)

  step-route :
      (r : Gate C) (p : Progress) (c : C) (d : Decision)
      → IsTold p
      → named p.results ≡ none
      → r.advises ≡ false
      → (r.evaluate c).0 ≡ decided d
      → d.verdict ≡ route
      → (named (step r p c).0.results ≡ some (result r.name binding route d.reason))
        × ((step r p c).2 ≡ true)
  unfolding step skip apply settle judge
  step-route r p c d t n a e v = let told = t n in grind (arith, named-snoc_none)

  run_from-named :
      (gs : List (Gate C)) (p : Progress) (c : C) (x : GateResult)
      → named p.results ≡ some x
      → named (run_from gs p c).0.results ≡ some x
  unfolding run_from
  run_from-named [] p c x h = h
  run_from-named (g ∷ gs) p c x h = elim (Bool-cases (step g p c).2) [
    | inl more ↦ rw more (run_from-named gs _ _ x (step-named g p c x h))
    | inr stop ↦ rw stop (step-named g p c x h)
  ]

  -- A gate that routes after gates that bound nothing is the first to bind, whatever comes next.
  run_from-route :
      (pre post : List (Gate C)) (r : Gate C) (p : Progress) (c : C) (d : Decision)
      → IsTold p
      → named (run_from pre p c).0.results ≡ none
      → r.advises ≡ false
      → (r.evaluate (run_from pre p c).1).0 ≡ decided d
      → d.verdict ≡ route
      → named (run_from (pre ++ r ∷ post) p c).0.results
        ≡ some (result r.name binding route d.reason)
  run_from-route [] post r p c d t n a e v =
      let (here, more) = step-route r p c d t (unfold run_from in n) a (unfold run_from in e) v in
      rw (run_from-more r post p c more) (run_from-named post _ _ _ here)
  run_from-route (q ∷ pre) post r p c d t n a e v = elim (Bool-cases (step q p c).2) [
    | inl more ↦
        let same = run_from-more q pre p c more in
        rw (run_from-more q (pre ++ r ∷ post) p c more) (
          run_from-route pre post r _ _ d (step-IsTold q p c t)
            (sym (ap (λ x. named x.0.results) same) ∙ n) a
            (sym (ap (λ x. (r.evaluate x.1).0) same) ∙ e) v)
    | inr stop ↦
        let last = sym (ap (λ x. named x.0.results) (run_from-stop q pre p c stop)) ∙ n in
        elim (Option-cases (named p.results)) [
          | inl fresh ↦ let bound = step-binds q p c fresh stop in cc
          | inr (x, old) ↦ let kept = step-named q p c x old in cc
        ]
  ]

  -- `DecisionTrace.binding` names the first result that bound, not the one that decided. In any
  -- stack where the gates before a gate that is not advisory bind nothing and that gate routes, and
  -- somewhere after it stands a gate that is not advisory, runs when routed, and raises, breaks its
  -- contract, suppresses or rejects in every context: the run ends in a refusal, with the verdict and
  -- the reason of the last result that bound, while the binding result is the route of the first.
  pub binding_result_of_route :
      (pre mid post : List (Gate C)) (r g : Gate C) (c : C) {d : Decision}
      (origin_hash signal_id policy_hash : String)
      → let before = run pre c origin_hash signal_id policy_hash in
        binding_result before.0 ≡ none
        → r.advises ≡ false
        → (r.evaluate before.1).0 ≡ decided d
        → d.verdict ≡ route
        → IsFirm g
        → Objects g
        → let t = (run (pre ++ r ∷ mid ++ g ∷ post) c origin_hash signal_id policy_hash).0 in
          IsRefusal t.action
          × (last_binding (allow, "") t.results ≡ (t.action, t.reason))
          × (binding_result t ≡ some (result r.name binding route d.reason))
  unfolding run binding_result
  binding_result_of_route pre mid post r g c o i h n a e v f obj = (
    run-Objects (pre ++ r ∷ mid) post g c o i h f obj,
    action-eq-last_binding (pre ++ r ∷ mid ++ g ∷ post) c o i h,
    rw (append_assoc pre (r ∷ mid) (g ∷ post))
        (run_from-route pre (mid ++ g ∷ post) r start c _ (λ b. (refl, refl)) n a e v),
  )
