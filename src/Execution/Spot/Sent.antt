-- ===== src/Execution/Spot/Sent.antt =====
-- zcastor/execution/binance_orders.py: what is sent to the exchange.
use zcastor_agent.Base.{ℕ, ◌/◌, ◌%◌, ◌≤◌, String, true, false, ◌||◌, ◌≡◌, refl}
use zcastor_agent.Base.{Option, List, ◌==◌, str_eq, arith}
use zcastor_agent.Base.{inl, inr, ◌⊎◌, Bool-cases}
use native.Mathlib.Nat.{mul-mod_left, div-mul-le_self}
use zcastor_agent.Base.Text.{upper}
use zcastor_agent.Market.Port.{Reply, raised, answered}
use zcastor_agent.Execution.Spot.{Exchange, Placer, Placed, Closed, Fill, market_order}
use zcastor_agent.Execution.Spot.{close_position, close_rounded, order_rounded, round_qty}
use zcastor_agent.Execution.Spot.{load_filters, step_of, round_to_step}
use zcastor_agent.Execution.Spot.{below_minimum, opposite, qty_of}

sides : (s : String) → str_eq s "BUY" || str_eq s "SELL" ≡ true → (s ≡ "BUY") ⊎ (s ≡ "SELL")
sides s h = ground arith

-- At least one unit, whole steps, and no more than was asked for.
abbrev pub Fits : ℕ → ℕ → ℕ → Type 0
Fits step most q = (1 ≤ q) × (q % step ≡ 0) × (q ≤ most)

round_to_step-Fits :
    (step q : ℕ) → (round_to_step step q == 0) ≡ false → Fits step q (round_to_step step q)
round_to_step-Fits step q h =
    (ground (arith, h), mul-mod_left (q / step) step, div-mul-le_self q step)

module _ {W : Type 0} (c : Exchange W) where
  -- What a market order comes to: no order is sent and an error is answered, or one order is sent,
  -- which fits the step and the volume and is not below the venue's minimum.
  abbrev pub IsSafe : String → ℕ → ℕ → Placer → W → Reply Placed × Placer × W → Type 0
  IsSafe side most price p w (r, p', w') =
      ((e : String) × (r ≡ raised e) × (w' ≡ w))
      ⊎ ((q : ℕ) × Fits (step_of p) most q
          × (below_minimum p q price ≡ false)
          × (w' ≡ (c.order (record { symbol = p.symbol; side = side; quantity = q }) w).1))

  order_rounded-IsSafe :
      (side : String) (most price sl : ℕ) (tp : Option ℕ) (p : Placer) (w : W)
      → IsSafe side most price p w
          (order_rounded c side price sl tp (round_to_step (step_of p) most, p, w))
  order_rounded-IsSafe side most price sl tp p w =
      let q = round_to_step (step_of p) most in
      elim (Bool-cases (q == 0)) [
        | inl nothing ↦ rw nothing (inl ("quantity rounds to zero", refl, refl))
        | inr some_qty ↦ elim (Bool-cases (below_minimum p q price)) [
          | inl below ↦ rw some_qty (rw below (inl ("notional below venue minimum", refl, refl)))
          | inr enough ↦
              rw some_qty
                (rw enough (inr (q, round_to_step-Fits (step_of p) most some_qty, enough, refl)))
        ]
      ]

  -- A word that is no side sends nothing and reads nothing; else the rules are read once, and the
  -- outcome is safe under them.
  pub market_order-IsSafe :
      (word : String) (price sl : ℕ) (tp : Option ℕ) (p : Placer) (w : W)
      → (market_order c word price sl tp p w ≡ (raised "bad side", p, w))
        ⊎ (let (p', w') = load_filters c p w in
            ((upper word ≡ "BUY") ⊎ (upper word ≡ "SELL"))
            × IsSafe (upper word) p.volume price p' w' (market_order c word price sl tp p w))
  unfolding market_order round_qty
  market_order-IsSafe word price sl tp p w =
      elim (Bool-cases (str_eq (upper word) "BUY" || str_eq (upper word) "SELL")) [
        | inr bad ↦ inl (rw bad refl)
        | inl side ↦ inr (
          sides (upper word) side,
          rw side (
              order_rounded-IsSafe (upper word) p.volume price sl tp (load_filters c p w).0
                (load_filters c p w).1),
        )
      ]

  -- A close sells what was bought, or buys what was sold: one order, of whole steps, and never more
  -- than the fills of the first order; or none, with an error.
  abbrev pub IsUndone : String → ℕ → Placer → W → Reply Closed × Placer × W → Type 0
  IsUndone side most p w (r, p', w') =
      ((e : String) × (r ≡ raised e) × (w' ≡ w))
      ⊎ ((q : ℕ) × Fits (step_of p) most q
          × (w' ≡ (c.order (record { symbol = p.symbol; side = opposite side; quantity = q }) w).1))

  close_rounded-IsUndone :
      (ticket most : ℕ) (side : String) (p : Placer) (w : W)
      → IsUndone side most p w (close_rounded c ticket side (round_to_step (step_of p) most, p, w))
  close_rounded-IsUndone ticket most side p w =
      elim (Bool-cases (round_to_step (step_of p) most == 0)) [
        | inl nothing ↦ rw nothing (inl ("nothing to close", refl, refl))
        | inr some_qty ↦ rw some_qty (
            inr
              (round_to_step (step_of p) most, round_to_step-Fits (step_of p) most some_qty, refl))
      ]

  pub close_position-IsUndone :
      (ticket : ℕ) (side : String) (p : Placer) (w w1 : W) (fs : List Fill)
      → c.my_trades p.symbol ticket w ≡ (answered fs, w1)
      → let (p', w') = load_filters c p w1 in
        IsUndone side (qty_of fs) p' w' (close_position c ticket side p w)
  unfolding close_position round_qty
  close_position-IsUndone ticket side p w w1 fs h = rw h (
      close_rounded-IsUndone ticket (qty_of fs) side (load_filters c p w1).0
        (load_filters c p w1).1)
