-- ===== src/Gates/Pipeline/Action.antt =====
-- zcastor/gates/pipeline.py: the outcome of a run, read off its trace, and the gates that object.
use zcastor_agent.Base.{
  String, ◌≡◌, refl, true, false, List, [], ◌∷◌, ◌++◌, arith, Bool-cases, ◌⊎◌, inl, inr, is_some,
  if◌then◌else◌,
}
use zcastor_agent.Gates.Verdict.{Verdict, allow, reject, suppress, GateResult, is_binding}
use zcastor_agent.Gates.Pipeline.{
  Gate, Progress, start, step, run_from, run, settle, apply, skip, judge, Outcome, decided, raised,
  not_a_decision,
}

abbrev pub Reading : Type 0
Reading = Verdict × String

abbrev pub pick : Reading → GateResult → Reading
pick acc r = if is_binding r.status then (r.verdict, r.reason) else acc

-- The verdict and the reason of the last result that is marked as binding.
abbrev pub last_binding : Reading → List GateResult → Reading
last_binding acc [] = acc
last_binding acc (r ∷ rs) = last_binding (pick acc r) rs

last_binding-snoc :
    (acc : Reading) (rs : List GateResult) (r : GateResult)
    → last_binding acc (rs ++ r ∷ []) ≡ pick (last_binding acc rs) r
last_binding-snoc acc [] r = refl
last_binding-snoc acc (x ∷ rs) r = last_binding-snoc (pick acc x) rs r

abbrev IsRead : Progress → Type 0
IsRead p = last_binding (allow, "") p.results ≡ (p.action, p.reason)

module _ {C : Type 0} where
  step-IsRead : (g : Gate C) (p : Progress) (c : C) → IsRead p → IsRead (step g p c).0
  unfolding step
  step-IsRead g p c h = grind (arith, last_binding-snoc)

  run_from-IsRead :
      (gs : List (Gate C)) (p : Progress) (c : C) → IsRead p → IsRead (run_from gs p c).0
  unfolding run_from
  run_from-IsRead [] p c h = h
  run_from-IsRead (g ∷ gs) p c h = elim (Bool-cases (step g p c).2) [
    | inl more ↦ rw more (run_from-IsRead gs (step g p c).0 (step g p c).1 (step-IsRead g p c h))
    | inr stop ↦ rw stop (step-IsRead g p c h)
  ]

  -- The action and the reason of a trace are those of its last binding result, and `allow` with no
  -- reason if nothing bound.
  pub action-eq-last_binding :
      (gs : List (Gate C)) (c : C) (origin_hash signal_id policy_hash : String)
      → let t = (run gs c origin_hash signal_id policy_hash).0 in
        last_binding (allow, "") t.results ≡ (t.action, t.reason)
  unfolding run
  action-eq-last_binding gs c o i h = run_from-IsRead gs start c refl

abbrev pub IsRefusal : Verdict → Type 0
IsRefusal v = (v ≡ suppress) ⊎ (v ≡ reject)

-- Once a decision has bound, the action is a refusal.
abbrev pub IsSteady : Progress → Type 0
IsSteady p = is_some p.bound ≡ true → IsRefusal p.action

-- A refusal, an exception, or an answer that is no decision.
abbrev pub IsObjection : Outcome → Type 0
IsObjection (decided d) = IsRefusal d.verdict
IsObjection raised = Unit
IsObjection not_a_decision = Unit

pub judge-IsRefusal :
    (name : String) (o : Outcome) → IsObjection o → IsRefusal (judge name o).verdict
unfolding judge
judge-IsRefusal name (decided d) h = h
judge-IsRefusal name raised h = inl refl
judge-IsRefusal name not_a_decision h = inl refl

module _ {C : Type 0} where
  -- Whatever the context, the evaluation of the gate is an objection.
  abbrev pub Objects : Gate C → Type 0
  Objects g = (c : C) → IsObjection (g.evaluate c).0

  -- The gate counts, and it is run after a route too. An expensive one is still skipped after a bind.
  abbrev pub IsFirm : Gate C → Type 0
  IsFirm g = (g.advises ≡ false) × (g.runs_when_routed ≡ true)

  pub step-IsSteady : (g : Gate C) (p : Progress) (c : C) → IsSteady p → IsSteady (step g p c).0
  unfolding apply step skip settle
  step-IsSteady g p c h = ground arith

  -- A round that ends the loop has rejected; one that goes on after a bind keeps the bind.
  step-bound :
      (g : Gate C) (p : Progress) (c : C)
      → is_some p.bound ≡ true
      → ((step g p c).2 ≡ true → is_some (step g p c).0.bound ≡ true)
        × ((step g p c).2 ≡ false → (step g p c).0.action ≡ reject)
  unfolding apply step skip settle
  step-bound g p c h = ground arith

  pub run_from-bound :
      (gs : List (Gate C)) (p : Progress) (c : C)
      → IsSteady p
      → is_some p.bound ≡ true
      → IsRefusal (run_from gs p c).0.action
  unfolding run_from
  run_from-bound [] p c s b = s b
  run_from-bound (g ∷ gs) p c s b = elim (Bool-cases (step g p c).2) [
    | inl more ↦ rw more (
        run_from-bound gs (step g p c).0 (step g p c).1 (step-IsSteady g p c s)
          ((step-bound g p c b).0 more))
    | inr stop ↦ rw stop (inr ((step-bound g p c b).1 stop))
  ]

  step-Objects :
      (g : Gate C) (p : Progress) (c : C)
      → IsFirm g
      → Objects g
      → ((step g p c).2 ≡ true → is_some (step g p c).0.bound ≡ true)
        × ((step g p c).2 ≡ false → (step g p c).0.action ≡ reject)
  unfolding apply step skip settle
  step-Objects g p c f o = ground (arith, judge-IsRefusal g.name (g.evaluate c).0 (o c))

  pub step-stop :
      (g : Gate C) (p : Progress) (c : C) → (step g p c).2 ≡ false → (step g p c).0.action ≡ reject
  unfolding apply step skip settle
  step-stop g p c h = ground arith

  run_from-Objects :
      (pre post : List (Gate C)) (g : Gate C) (p : Progress) (c : C)
      → IsSteady p
      → IsFirm g
      → Objects g
      → IsRefusal (run_from (pre ++ g ∷ post) p c).0.action
  unfolding run_from
  run_from-Objects [] post g p c s f o = elim (Bool-cases (step g p c).2) [
    | inl more ↦ rw more (
        run_from-bound post (step g p c).0 (step g p c).1 (step-IsSteady g p c s)
          ((step-Objects g p c f o).0 more))
    | inr stop ↦ rw stop (inr ((step-Objects g p c f o).1 stop))
  ]
  run_from-Objects (q ∷ pre) post g p c s f o = elim (Bool-cases (step q p c).2) [
    | inl more ↦
        rw more
          (run_from-Objects pre post g (step q p c).0 (step q p c).1 (step-IsSteady q p c s) f o)
    | inr stop ↦ rw stop (inr (step-stop q p c stop))
  ]

  -- A gate that is not advisory and runs when routed, expensive or not, cannot be overruled: if it
  -- raises, breaks its contract, suppresses or rejects in every context, then a run of any stack
  -- that holds it, wherever it stands, ends in a refusal and neither trades nor routes.
  pub run-Objects :
      (pre post : List (Gate C)) (g : Gate C) (c : C) (origin_hash signal_id policy_hash : String)
      → IsFirm g
      → Objects g
      → IsRefusal (run (pre ++ g ∷ post) c origin_hash signal_id policy_hash).0.action
  unfolding run
  run-Objects pre post g c o i h f obj = run_from-Objects pre post g start c (λ b. cc) f obj
