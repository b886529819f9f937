-- ===== src/Gates/Pipeline/Order.antt =====
-- zcastor/gates/pipeline.py: the trace has one result for each gate, in the order of the stack.
use mathlib.Core.List.{map-append, append_assoc}
use zcastor_agent.Base.{
  String, ◌≡◌, refl, ◌∙◌, ap, false, List, [], ◌∷◌, ◌++◌, map, arith, Bool-cases, inl, inr, ◌≢◌,
}
use zcastor_agent.Gates.Verdict.{GateResult, reject}
use zcastor_agent.Gates.Pipeline.{Gate, Progress, start, step, run_from, run}

abbrev pub names : List GateResult → List String
names = map (λ r. r.name)

abbrev pub gate_names : {C : Type 0} → List (Gate C) → List String
gate_names = map (λ g. g.name)

names-snoc :
    (xs : List GateResult) (r : GateResult) → names (xs ++ r ∷ []) ≡ names xs ++ r.name ∷ []
names-snoc xs r = map-append (λ (x : GateResult). x.name) xs (r ∷ [])

module _ {C : Type 0} where
  step-names :
      (g : Gate C) (p : Progress) (c : C)
      → names (step g p c).0.results ≡ names p.results ++ g.name ∷ []
  unfolding step
  step-names g p c = grind (arith, names-snoc)

  step-reject :
      (g : Gate C) (p : Progress) (c : C) → (step g p c).2 ≡ false → (step g p c).0.action ≡ reject
  unfolding step
  step-reject g p c h = ground arith

  run_from-names :
      (gs : List (Gate C)) (p : Progress) (c : C)
      → (rest : List String) × (names (run_from gs p c).0.results ++ rest
          ≡ names p.results ++ gate_names gs)
        × ((run_from gs p c).0.action ≢ reject → rest ≡ [])
  unfolding run_from
  run_from-names [] p c = ([], refl, λ h. refl)
  run_from-names (g ∷ gs) p c = elim (Bool-cases (step g p c).2) [
    | inl more ↦
        let (rest, e, full) = run_from-names gs (step g p c).0 (step g p c).1 in
        rw more (
          rest,
          e
              ∙ ap (λ l. l ++ gate_names gs) (step-names g p c)
              ∙ append_assoc (names p.results) (g.name ∷ []) (gate_names gs),
          full,
        )
    | inr stop ↦ rw stop (
      gate_names gs,
      ap (λ l. l ++ gate_names gs) (step-names g p c)
          ∙ append_assoc (names p.results) (g.name ∷ []) (gate_names gs),
      λ ne. absurd (ne (step-reject g p c stop)),
    )
  ]

  -- The results of a run carry the names of the gates, in the order of the stack: they are a
  -- beginning of it, and the whole of it unless the run ended in a rejection.
  pub run_in_order :
      (gs : List (Gate C)) (c : C) (origin_hash signal_id policy_hash : String)
      → let t = (run gs c origin_hash signal_id policy_hash).0 in
        (rest : List String) × (names t.results ++ rest ≡ gate_names gs)
        × (t.action ≢ reject → rest ≡ [])
  unfolding run
  run_in_order gs c o i h = run_from-names gs start c
