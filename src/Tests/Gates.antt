-- ===== src/Tests/Gates.antt =====
-- The pipeline and the gates on small stacks and contexts.
use zcastor_agent.Tests.Desk.{context, fill}
use zcastor_agent.Base.{
  ℕ, ◌+◌, String, String-discrete, ◌≡◌, refl, ◌≢◌, true, false, none, some, List, [], ◌∷◌, ◌++◌,
  inl, inr,
}
use zcastor_agent.Base.Int.{◌-ℤ◌, ◌*ℤ◌, neg, abs}
use zcastor_agent.Base.Text.{lower, strip}
use zcastor_agent.Gates.Verdict.{
  allow, reject, suppress, route, allowing, suppressing, rejecting, Decision, binding,
  binding_result,
}
use zcastor_agent.Gates.Pipeline.{
  Gate, Outcome, decided, raised, judge, step, run_from, run, apply, skip, settle, result, validate,
}
use zcastor_agent.Gates.Pipeline.Action.{
  IsRefusal, last_binding, run-Objects, action-eq-last_binding,
}
use zcastor_agent.Gates.Pipeline.Named.{binding_result_of_route}
use zcastor_agent.Gates.Pipeline.Order.{run_in_order, names, gate_names}
use zcastor_agent.Gates.Pipeline.Advisory.{run-AreLike}
use zcastor_agent.Gates.Structure.{
  evaluate_cooldown, evaluate_regime_context, route_fresh, normalise_regime,
}
use zcastor_agent.Gates.Cost.{evaluate_deadman}
use zcastor_agent.Gates.Laws.{Allows}

-- A gate that always runs, counts and answers the same.
abbrev firm : String → Outcome → Gate ℕ
firm n out = record {
  name = n;
  runs_when_routed = true;
  expensive = false;
  advises = false;
  evaluate = λ c. (out, c + 1);
}

abbrev plain : Gate ℕ
plain = firm "plain" (decided allowing)

abbrev broken : Gate ℕ
broken = firm "broken" raised

abbrev costly : Gate ℕ
costly = record broken { expensive = true }

abbrev router : Gate ℕ
router = firm "router" (decided route_fresh)

abbrev refuser : Gate ℕ
refuser = firm "refuser" (decided (suppressing "no"))

abbrev market_only : Gate ℕ
market_only = record plain { name = "market_only"; runs_when_routed = false }

abbrev observer : Decision → Gate ℕ
observer d = record {
  name = "observer";
  runs_when_routed = true;
  expensive = false;
  advises = true;
  evaluate = λ c. (decided d, c + 1);
}

-- A routed run skips the gate that judges a market entry; the refusal after it overrides the route.
mixed_run :
    let (t, c) = run (router ∷ market_only ∷ broken ∷ refuser ∷ []) 0 "o" "s" "p" in
    (t.action ≡ suppress) × (t.reason ≡ "gate_error:broken") × (t.route_kind ≡ "") × (c ≡ 3)
unfolding run judge step
mixed_run = (refl, refl, refl, refl)

duplicate_refused : validate [] (plain ∷ refuser ∷ plain ∷ []) ≡ none
unfolding validate String-discrete
duplicate_refused = refl

run-Objects_example : IsRefusal (run ((router ∷ []) ++ costly ∷ plain ∷ []) 0 "o" "s" "p").0.action
unfolding judge
run-Objects_example =
    run-Objects (router ∷ []) (plain ∷ []) costly 0 "o" "s" "p" (refl, refl) (λ c. tt)

action-eq-last_binding_example :
    let t = (run (router ∷ refuser ∷ []) 0 "o" "s" "p").0 in
    last_binding (allow, "") t.results ≡ (t.action, t.reason)
action-eq-last_binding_example = action-eq-last_binding (router ∷ refuser ∷ []) 0 "o" "s" "p"

run_in_order_example :
    let t = (run (plain ∷ refuser ∷ []) 0 "o" "s" "p").0 in
    (rest : List String) × (names t.results ++ rest ≡ gate_names (plain ∷ refuser ∷ []))
    × (t.action ≢ reject → rest ≡ [])
run_in_order_example = run_in_order (plain ∷ refuser ∷ []) 0 "o" "s" "p"

binding_result_of_route_example :
    let t = (run ((plain ∷ []) ++ router ∷ (plain ∷ []) ++ refuser ∷ []) 0 "o" "s" "p").0 in
    IsRefusal t.action
    × (last_binding (allow, "") t.results ≡ (t.action, t.reason))
    × (binding_result t ≡ some (result "router" binding route "routed_fresh"))
unfolding run run_from step apply skip settle judge binding_result
binding_result_of_route_example =
    binding_result_of_route (plain ∷ []) (plain ∷ []) [] router refuser 0 "o" "s" "p" refl refl refl
      refl (refl, refl) (λ x. inl refl)

run-AreLike_example :
    let (t, c₁) = run (observer allowing ∷ router ∷ []) 0 "o" "s" "p" in
    let (u, c₂) = run (observer (rejecting "odd") ∷ router ∷ []) 0 "o" "s" "p" in
    (t.action ≡ u.action) × (t.reason ≡ u.reason) × (t.route_kind ≡ u.route_kind) × (c₁ ≡ c₂)
run-AreLike_example =
    run-AreLike (observer allowing ∷ router ∷ []) (observer (rejecting "odd") ∷ router ∷ []) 0 "o"
      "s" "p"
      (
        record {
          name = refl;
          runs = refl;
          expensive = refl;
          advises = refl;
          writes = λ c. refl;
          decides = inl refl;
        },
        (
          record {
            name = refl;
            runs = refl;
            expensive = refl;
            advises = refl;
            writes = λ c. refl;
            decides = inr (λ c. refl);
          },
          tt,
        ),
      )

-- A loss of 300 on a start of 1300 leaves more than three quarters of it.
deadman_example : Allows (evaluate_deadman context)
unfolding evaluate_deadman judge ◌-ℤ◌ ◌*ℤ◌ neg
deadman_example = refl

-- A range on 5m with a weak block is routed, and an entry next to the last fill is refused.
ranging_routed : judge "gate" (evaluate_regime_context context).0 ≡ route_fresh
unfolding judge evaluate_regime_context normalise_regime lower strip String-discrete
ranging_routed = refl

doubled_refused : (judge "gate" (evaluate_cooldown fill context).0).verdict ≡ suppress
unfolding judge evaluate_cooldown String-discrete ◌-ℤ◌ abs
doubled_refused = refl
