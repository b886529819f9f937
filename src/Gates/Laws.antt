-- ===== src/Gates/Laws.antt =====
-- zcastor/gates/: when each gate lets a signal through, and what every gate does on missing values.
use mathlib.Core.Option.{some-injective}
use zcastor_agent.Base.{
  ◌<◌, ◌+◌, String, str_eq, Bool, true, false, Option, none, some, arith, ◌≡◌, refl, ◌≢◌, ◌↔◌, ◌⊎◌,
  inl, inr, Bool-cases,
}
use zcastor_agent.Base.Int.{ℤ, pos, ◌≤ℤ◌, ◌<ℤ◌, ◌-ℤ◌, neg, abs, leb_ℤ}
use zcastor_agent.Gates.Verdict.{allow, suppress}
use zcastor_agent.Gates.Pipeline.{judge}
use zcastor_agent.Gates.Context.{ratio_ltb, GateContext, Evaluation}
use zcastor_agent.Gates.Cost.{evaluate_deadman, deadman_from, deadman_floor}
use zcastor_agent.Gates.Structure.{
  Cooldown, evaluate_cooldown, evaluate_regime_context, window_ms, distance_limit,
  timeframe_allowed, weak_block, own_regime, normalise_regime, is_directional, route_fresh,
  regime_decision,
}

-- The decision that the pipeline takes from an evaluation lets the signal through.
abbrev pub Allows : Evaluation → Type 0
Allows r = (judge "gate" r.0).verdict ≡ allow

deadman_some :
    (balance : ℤ) (c : GateContext)
    → let start = balance -ℤ c.adapters.today_pnl in
      (Allows (deadman_from (some balance) c) ↔ (
        (pos 0 <ℤ balance)
        × (pos 0 <ℤ start)
        × (ratio_ltb (neg c.adapters.today_pnl) start (deadman_floor c) ≡ true)))
      × (Allows (deadman_from (some balance) c)
          ⊎ ((judge "gate" (deadman_from (some balance) c).0).verdict ≡ suppress))
unfolding deadman_from judge
deadman_some balance c = elim (Bool-cases (leb_ℤ balance (pos 0))) [
  | inl low ↦ rw low ((λ h. cc, λ h. ground arith), inr refl)
  | inr up ↦ rw up (elim (Bool-cases (leb_ℤ (balance -ℤ c.adapters.today_pnl) (pos 0))) [
    | inl low ↦ rw low ((λ h. cc, λ h. ground arith), inr refl)
    | inr rich ↦
        rw rich
          (elim (Bool-cases (
            ratio_ltb (neg c.adapters.today_pnl) (balance -ℤ c.adapters.today_pnl)
              (deadman_floor c))) [
                | inl safe ↦
                    rw safe ((λ h. (ground arith, ground arith, refl), λ h. refl), inl refl)
                | inr lost ↦ rw lost ((λ h. cc, λ h. ground arith), inr refl)
              ])
  ])
]

deadman_from_iff :
    (b : Option ℤ) (c : GateContext) (balance : ℤ)
    → (b ≡ none → (judge "gate" (deadman_from b c).0).verdict ≡ suppress)
      × (b ≡ some balance
          → (Allows (deadman_from b c) ↔ (
              (pos 0 <ℤ balance)
              × (pos 0 <ℤ (balance -ℤ c.adapters.today_pnl))
              × (ratio_ltb
                    (neg c.adapters.today_pnl)
                    (balance -ℤ c.adapters.today_pnl)
                    (deadman_floor c)
                  ≡ true)))
            × (Allows (deadman_from b c)
                ⊎ ((judge "gate" (deadman_from b c).0).verdict ≡ suppress)))
deadman_from_iff none c balance = (λ e. unfold deadman_from judge in refl, λ e. cc)
deadman_from_iff (some v) c balance =
    (λ e. cc, λ e. rw (← some-injective v balance e) (deadman_some v c))

abbrev pub DeadmanRule : GateContext → ℤ → Type 0
DeadmanRule c balance =
    (Allows (evaluate_deadman c) ↔ (
      (pos 0 <ℤ balance)
      × (pos 0 <ℤ (balance -ℤ c.adapters.today_pnl))
      × (ratio_ltb (neg c.adapters.today_pnl) (balance -ℤ c.adapters.today_pnl) (deadman_floor c)
          ≡ true)))
    × (Allows (evaluate_deadman c) ⊎ ((judge "gate" (evaluate_deadman c).0).verdict ≡ suppress))

-- With a balance that can be read, the dead-man gate lets a signal through exactly when the balance
-- is positive, the balance at the start of the day was positive, and the loss since is below the
-- floor's fraction of it, and otherwise it suppresses.
pub deadman_allows_iff :
    (c : GateContext) (balance : ℤ) → c.adapters.balance ≡ some balance → DeadmanRule c balance
unfolding evaluate_deadman
deadman_allows_iff c balance known = (deadman_from_iff c.adapters.balance c balance).1 known

abbrev pub CooldownRule : Cooldown → GateContext → String → ℤ → Type 0
CooldownRule s c direction price = ((judge "gate" (evaluate_cooldown s c).0).verdict ≡ suppress) ↔ (
    (s.last_fill ≢ 0)
    × (c.adapters.clock < s.last_fill + window_ms c)
    × (direction ≡ s.last_direction)
    × (abs (price -ℤ s.last_price) ≤ℤ distance_limit c))

-- The cooldown gate suppresses an entry whose direction and price are known exactly when an earlier
-- fill is recorded, its window has not passed, the direction is that of the fill, and the price is
-- no further from it than the limit.
pub cooldown_suppresses_iff :
    (s : Cooldown) (c : GateContext) {direction : String} {price : ℤ}
    → c.direction ≡ some direction
    → c.execution_price ≡ some price
    → CooldownRule s c direction price
unfolding evaluate_cooldown judge
cooldown_suppresses_iff s c d p = (λ h. ground arith, λ h. ground arith)

regime_decision_iff :
    (ranging allowed own weak : Bool)
    → let d = regime_decision ranging allowed own weak in
      ((d ≡ route_fresh) ↔ ((ranging ≡ true) × (allowed ≡ false) × (own ≡ false) × (weak ≡ true)))
      × ((d ≡ route_fresh) ⊎ (d.verdict ≡ allow))
unfolding regime_decision
regime_decision_iff ranging allowed own weak =
    ((λ h. ground arith, λ h. ground arith), ground arith)

abbrev pub RegimeRule : GateContext → Type 0
RegimeRule c =
    ((judge "gate" (evaluate_regime_context c).0 ≡ route_fresh) ↔ (
      (str_eq (normalise_regime c.signal.regime) "ranging" ≡ true)
      × (timeframe_allowed c ≡ false)
      × (is_directional (some (normalise_regime (own_regime c))) ≡ false)
      × (weak_block c ≡ true)))
    × ((judge "gate" (evaluate_regime_context c).0 ≡ route_fresh)
        ⊎ Allows (evaluate_regime_context c))

-- The regime gate routes a signal exactly when the market is read as ranging, the timeframe is not
-- one that may trade a range, its own regime is not directional and the block's confidence is weak;
-- otherwise it allows. It never refuses.
pub regime_routes_iff : (c : GateContext) → RegimeRule c
unfolding evaluate_regime_context judge
regime_routes_iff c =
    regime_decision_iff (str_eq (normalise_regime c.signal.regime) "ranging") (timeframe_allowed c)
      (is_directional (some (normalise_regime (own_regime c)))) (weak_block c)
