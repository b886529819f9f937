-- ===== src/Gates/Pipeline/Kept.antt =====
-- zcastor/gates/pipeline.py: a gate that objects as long as something holds that the gates before it
-- keep.
use zcastor_agent.Base.{
  String, ◌≡◌, true, false, List, [], ◌∷◌, ◌++◌, arith, Bool-cases, inl, inr, is_some,
}
use zcastor_agent.Gates.Verdict.{reject}
use zcastor_agent.Gates.Pipeline.{Gate, Progress, start, step, run_from, run, settle, apply, skip}
use zcastor_agent.Gates.Pipeline.Action.{
  IsObjection, IsRefusal, IsSteady, judge-IsRefusal, step-IsSteady, run_from-bound, step-stop,
}

module _ {C : Type 0} (Holds : C → Type 0) where
  -- The gate leaves a context in which the property still holds.
  abbrev pub Keeps : Gate C → Type 0
  Keeps g = (c : C) → Holds c → Holds (g.evaluate c).1

  abbrev pub AllKeep : List (Gate C) → Type 0
  AllKeep [] = Unit
  AllKeep (g ∷ gs) = Keeps g × AllKeep gs

  -- The gate is not advisory, and it judges routed signals too.
  abbrev pub IsCounted : Gate C → Type 0
  IsCounted g = (g.advises ≡ false) × (g.runs_when_routed ≡ true)

  step-Keeps : (g : Gate C) (p : Progress) (c : C) → Keeps g → Holds c → Holds (step g p c).1
  unfolding step
  step-Keeps g p c k h = ground (arith, k c h)

  -- The round of a gate that objects leaves a bind, its own or an earlier one, or it ends the run.
  step-objects :
      (g : Gate C) (p : Progress) (c : C)
      → IsCounted g
      → IsObjection (g.evaluate c).0
      → ((step g p c).2 ≡ true → is_some (step g p c).0.bound ≡ true)
        × ((step g p c).2 ≡ false → (step g p c).0.action ≡ reject)
  unfolding apply step skip settle
  step-objects g p c f o = ground (arith, judge-IsRefusal g.name (g.evaluate c).0 o)

  run_from-Keeps :
      (pre post : List (Gate C)) (g : Gate C) (p : Progress) (c : C)
      → IsSteady p
      → IsCounted g
      → AllKeep pre
      → ((x : C) → Holds x → IsObjection (g.evaluate x).0)
      → Holds c
      → IsRefusal (run_from (pre ++ g ∷ post) p c).0.action
  unfolding run_from
  run_from-Keeps [] post g p c s f k o h = elim (Bool-cases (step g p c).2) [
    | inl more ↦ rw more (
        run_from-bound post (step g p c).0 (step g p c).1 (step-IsSteady g p c s)
          ((step-objects g p c f (o c h)).0 more))
    | inr stop ↦ rw stop (inr ((step-objects g p c f (o c h)).1 stop))
  ]
  run_from-Keeps (q ∷ pre) post g p c s f k o h = elim (Bool-cases (step q p c).2) [
    | inl more ↦ rw more (
        run_from-Keeps pre post g (step q p c).0 (step q p c).1 (step-IsSteady q p c s) f k.1 o
          (step-Keeps q p c k.0 h))
    | inr stop ↦ rw stop (inr (step-stop q p c stop))
  ]

  -- A gate that counts, and that raises or objects while a property holds that the gates before it
  -- keep, makes a run that starts with the property a refusal, whatever comes after it.
  pub run-Keeps :
      (pre post : List (Gate C)) (g : Gate C) (c : C) (origin_hash signal_id policy_hash : String)
      → IsCounted g
      → AllKeep pre
      → ((x : C) → Holds x → IsObjection (g.evaluate x).0)
      → Holds c
      → IsRefusal (run (pre ++ g ∷ post) c origin_hash signal_id policy_hash).0.action
  unfolding run
  run-Keeps pre post g c a i p f k o h = run_from-Keeps pre post g start c (λ b. cc) f k o h
