-- ===== src/Gates/Stack/Halted.antt =====
-- zcastor/app/server.py: `_gates`, run on an account that may not trade.
use zcastor_agent.Base.{String, Bool, false, ◌&&◌, Option, none, some, ◌∷◌, ◌≡◌, refl, arith, inl}
use zcastor_agent.Base.Int.{ℤ, pos, ltb_ℤ, ◌-ℤ◌, neg}
use zcastor_agent.Gates.Pipeline.{run}
use zcastor_agent.Gates.Pipeline.Action.{IsObjection, IsRefusal}
use zcastor_agent.Gates.Pipeline.Kept.{run-Keeps}
use zcastor_agent.Gates.Context.{Fraction, ratio_ltb, GateContext}
use zcastor_agent.Gates.Cost.{deadman_gate, evaluate_deadman, deadman_from, deadman_floor}
use zcastor_agent.Gates.Exposure.{stack_gate}
use zcastor_agent.Gates.Feed.{FeedMemory}
use zcastor_agent.Gates.Structure.{Cooldown}
use zcastor_agent.Gates.Stack.{input_gates, later_gates, gates}
use zcastor_agent.Gates.Stack.Kept.{RunsIn, input_gates-AllKeep}

-- May an account with this balance and this profit of the day trade at all?
abbrev pub is_solvent : Option ℤ → ℤ → Fraction → Bool
is_solvent none pnl floor = false
is_solvent (some balance) pnl floor =
    ltb_ℤ (pos 0) balance
    && (ltb_ℤ (pos 0) (balance -ℤ pnl) && ratio_ltb (neg pnl) (balance -ℤ pnl) floor)

deadman_from-objects :
    (b : Option ℤ) (c : GateContext)
    → is_solvent b c.adapters.today_pnl (deadman_floor c) ≡ false
    → IsObjection (deadman_from b c).0
unfolding deadman_from
deadman_from-objects none c h = inl refl
deadman_from-objects (some b) c h = ground arith

module _ (c : GateContext)
    (h : is_solvent c.adapters.balance c.adapters.today_pnl (deadman_floor c) ≡ false) where
  deadman-objects :
      (x : GateContext) → RunsIn c.adapters c.policy x → IsObjection (deadman_gate.evaluate x).0
  unfolding deadman_gate evaluate_deadman
  deadman-objects x k = deadman_from-objects x.adapters.balance x (rw (k.0, k.1) h)

  -- Where the balance cannot be read, or it or the start of the day is not positive, or the loss of
  -- the day is at the floor, the server's stack neither allows nor routes any signal, whatever the
  -- feed, the cooldown and the other adapters say.
  pub gates-halt :
      (m : FeedMemory) (s : Cooldown) (enforce : Bool) (origin_hash signal_id policy_hash : String)
      → IsRefusal (run (gates m s enforce) c origin_hash signal_id policy_hash).0.action
  unfolding gates deadman_gate
  gates-halt m s enforce o i p =
      run-Keeps (RunsIn c.adapters c.policy) (input_gates m) (stack_gate ∷ later_gates s enforce)
        deadman_gate c o i p (refl, refl) (input_gates-AllKeep c.adapters c.policy m)
        deadman-objects (refl, refl)
