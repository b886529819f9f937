-- ===== src/Execution/Engine/Halted.antt =====
-- zcastor/execution/engine.py: what `process` does while the account may not trade: it opens nothing.
use zcastor_agent.Base.{
  ℕ, String, Bool, false, Option, none, some, List, [], ◌∷◌, ◌≡◌, refl, ap, ◌∙◌, opt_or, inl, inr,
  if◌then◌else◌, str_eq,
}
use zcastor_agent.Base.Int.{ℤ}
use zcastor_agent.Gates.Verdict.{DecisionTrace, suppress, is_reject}
use zcastor_agent.Gates.Pipeline.{run}
use zcastor_agent.Gates.Pipeline.Action.{IsRefusal}
use zcastor_agent.Gates.Context.{Signal, GateContext}
use zcastor_agent.Gates.Cost.{deadman_floor}
use zcastor_agent.Gates.Feed.{FeedMemory}
use zcastor_agent.Gates.Structure.{Cooldown}
use zcastor_agent.Gates.Stack.{gates}
use zcastor_agent.Gates.Stack.Halted.{is_solvent, gates-halt}
use zcastor_agent.Record.Dossier.{ProofSet}
use zcastor_agent.Execution.Orders.{Answer, Filled}
use zcastor_agent.Execution.Engine.{
  Acted, ArmAnswer, Ports, Settings, EngineState, fresh_context, act, close_all, close_in,
  close_exhausted_direction,
}
use zcastor_agent.Execution.Engine.Recording.{
  register_for_measurement, enqueue_dossier, publish, record_published, record_fill, record_state,
  record_decision, finish, act_and_finish, conclude, process,
}

module _ {W : Type 0} (q : Ports W) (e : Settings)
    (order : String → (price sl : ℤ) → Option ℤ → W → Answer Filled × W)
    (arm : String → String → GateContext → W → ArmAnswer × W) where
  -- The ports, with another answer to `market_order` and another `arm`. `close_position` of the venue
  -- stays as it is, since a blocked zone closes positions whether or not the account may trade.
  abbrev pub rewired : Ports W
  rewired = record q { market_order = order; arm = arm }

  act-refusal :
      (t : DecisionTrace) (c : GateContext) (w : W)
      → t.action ≡ suppress
      → act rewired e t.action c t w ≡ act q e t.action c t w
  unfolding act
  act-refusal t c w h = rw h refl

  close_all-rewired :
      (want : String) (ps : List (ℕ × String)) (w : W)
      → close_all rewired e want ps w ≡ close_all q e want ps w
  unfolding close_all
  close_all-rewired want [] w = refl
  close_all-rewired want ((ticket, side) ∷ ps) w =
      rw (close_all-rewired want ps (q.close_position ticket want w).1, close_all-rewired want ps w)
        refl

  close_in-rewired : (d : Option String) (w : W) → close_in rewired e d w ≡ close_in q e d w
  unfolding close_in
  close_in-rewired none w = refl
  close_in-rewired (some d) w =
      rw
        (close_all-rewired (if str_eq d "UP" then "BUY" else "SELL") (q.get_open_positions w).0
          (q.get_open_positions w).1)
        refl

  record_fill-rewired :
      (f : Option Filled) (at : String) (p : ProofSet) (c : GateContext) (t : DecisionTrace)
      (s : EngineState W)
      → record_fill rewired e f at p c t s ≡ record_fill q e f at p c t s
  unfolding record_fill publish record_published enqueue_dossier
  record_fill-rewired none at p c t s = refl
  record_fill-rewired (some f) at p c t s = refl

  finish-rewired :
      (a : Acted) (origin at : String) (c : GateContext) (s : EngineState W)
      → finish rewired e a origin at c s ≡ finish q e a origin at c s
  unfolding finish register_for_measurement record_decision record_state
  finish-rewired none origin at c s = refl
  finish-rewired (some (x, t)) origin at c s = refl

  act_and_finish-refusal :
      (closed : Option (List ℕ)) (origin at : String) (c : GateContext) (t : DecisionTrace)
      (s : EngineState W)
      → t.action ≡ suppress
      → act_and_finish rewired e closed origin at c t s ≡ act_and_finish q e closed origin at c t s
  unfolding act_and_finish
  act_and_finish-refusal none origin at c t s h = refl
  act_and_finish-refusal (some closed) origin at c t s h = rw (act-refusal t c s.world h) (
      finish-rewired (act q e t.action c t s.world).0 origin at c
        (record s { world = (act q e t.action c t s.world).1 }))

  close-rewired :
      (c : GateContext) (w : W)
      → close_exhausted_direction rewired e c w ≡ close_exhausted_direction q e c w
  unfolding close_exhausted_direction
  close-rewired c w =
      ap (λ x. if str_eq (opt_or c.zone_status "") "blocked" then x else (some [], w))
        (close_in-rewired c.direction w)

  conclude-refusal :
      (origin at : String) (t : DecisionTrace) (c : GateContext) (s : EngineState W)
      → IsRefusal t.action
      → conclude rewired e origin at t c s ≡ conclude q e origin at t c s
  unfolding conclude
  conclude-refusal origin at t c s (inr rejects) = rw rejects refl
  conclude-refusal origin at t c s (inl suppresses) =
      ap (λ x. if is_reject t.action then (some t, s) else x)
        (ap (λ x. act_and_finish rewired e x.0 origin at c t (record s { world = x.1 }))
            (close-rewired c s.world)
          ∙ act_and_finish-refusal (close_exhausted_direction q e c s.world).0 origin at c t
              (record s { world = (close_exhausted_direction q e c s.world).1 }) suppresses)

  -- Where the account may not trade at the moment of the signal, `process` with the server's stack
  -- opens no position and arms nothing: it gives the same result and the same state with any other
  -- `market_order` and any other `arm` in the ports. Of what closes open positions, it says nothing.
  pub process-halted :
      (m : FeedMemory) (cool : Cooldown) (enforce : Bool) (g : Signal) (s : EngineState W)
      → let a = (q.adapters g (q.begin (q.uuid (q.now s.world).1).1)).0 in
        let c = fresh_context g e.policy a in
        is_solvent a.balance a.today_pnl (deadman_floor c) ≡ false
        → process rewired e (gates m cool enforce) g s ≡ process q e (gates m cool enforce) g s
  unfolding process
  process-halted m cool enforce g s h =
      let (at, w) = q.now s.world in
      let (id, w') = q.uuid w in
      let (a, w'') = q.adapters g (q.begin w') in
      let c = fresh_context g e.policy a in
      let (t, c') = run (gates m cool enforce) c (q.origin_hash g) id e.policy_hash in
      conclude-refusal (q.origin_hash g) at t c' (record s { world = w'' })
        (gates-halt c h m cool enforce (q.origin_hash g) id e.policy_hash)
