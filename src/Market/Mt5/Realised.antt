-- ===== src/Market/Mt5/Realised.antt =====
-- zcastor/market/mt5.py: what `get_closed_deal` answers.
use zcastor_agent.Base.{ℕ, ◌≤◌, true, false, ◌≡◌, refl, sym, ap, ◌∙◌, Option, none}
use zcastor_agent.Base.{
  some, All-keep_if, keep_if-nil, keep_if-cons, List, [], ◌∷◌, All, any, keep_if, ltb, opt_or,
  arith,
}
use zcastor_agent.Base.{if◌then◌else◌}
use zcastor_agent.Base.Int.{ℤ, pos, ◌+ℤ◌, ltb_ℤ, int_laws}
use mathlib.Core.Path.{subst}
use zcastor_agent.Base.{String}
use zcastor_agent.Market.Mt5.{Terminal, get_closed_deal}
use zcastor_agent.Market.Port.{answered}
use zcastor_agent.Market.Mt5.Deals.{DealInfo, ClosedDeal, number_or, net_of, is_closing, latest_of}
use zcastor_agent.Market.Mt5.Deals.{closed_from, deals_from}

-- One column of the history, summed.
abbrev pub column : (DealInfo → Option ℤ) → List DealInfo → ℤ
column field [] = pos 0
column field (d ∷ ds) = number_or (field d) (pos 0) +ℤ column field ds

-- The profits, the swaps, the commissions and the fees.
abbrev pub realised : List DealInfo → ℤ
realised ds =
    (column (λ d. d.profit) ds +ℤ column (λ d. d.swap) ds)
    +ℤ (column (λ d. d.commission) ds +ℤ column (λ d. d.fee) ds)

regroup :
    (n a b c e p q r t : ℤ)
    → n +ℤ a +ℤ b +ℤ c +ℤ e +ℤ (p +ℤ q +ℤ (r +ℤ t))
      ≡ n +ℤ (a +ℤ p +ℤ (b +ℤ q) +ℤ (c +ℤ r +ℤ (e +ℤ t)))
regroup n a b c e p q r t = omega int_laws

plus_zero : (a : ℤ) → pos 0 +ℤ a ≡ a
plus_zero a = omega int_laws

larger_of : (a b : ℕ) → a ≤ (if ltb a b then b else a)
larger_of a b = ground arith

larger_rest : (a b : ℕ) → b ≤ (if ltb a b then b else a)
larger_rest a b = ground arith

net_of-realised : (n : ℤ) (ds : List DealInfo) → net_of n ds ≡ n +ℤ realised ds
net_of-realised n [] = omega int_laws
net_of-realised n (d ∷ ds) =
    let a = number_or d.profit (pos 0) in
    let b = number_or d.swap (pos 0) in
    let c = number_or d.commission (pos 0) in
    let e = number_or d.fee (pos 0) in
    net_of-realised (n +ℤ a +ℤ b +ℤ c +ℤ e) ds
    ∙ regroup n a b c e (column (λ d. d.profit) ds) (column (λ d. d.swap) ds)
        (column (λ d. d.commission) ds) (column (λ d. d.fee) ds)

raise_bound :
    (m n : ℕ) (ds : List DealInfo)
    → m ≤ n
    → All (λ d. opt_or d.time 0 ≤ m) ds
    → All (λ d. opt_or d.time 0 ≤ n) ds
raise_bound m n [] h all = tt
raise_bound m n (d ∷ ds) h all = (omega (arith, h, all.0), raise_bound m n ds h all.1)

latest_of-All : (ds : List DealInfo) → All (λ d. opt_or d.time 0 ≤ latest_of ds) ds
latest_of-All [] = tt
latest_of-All (d ∷ ds) = (
  larger_of (opt_or d.time 0) (latest_of ds),
  raise_bound (latest_of ds) _ ds (larger_rest (opt_or d.time 0) (latest_of ds)) (latest_of-All ds),
)

-- What an answer promises, given the history.
abbrev pub IsRealised : List DealInfo → Option ClosedDeal → Type 0
IsRealised ds none = any is_closing ds ≡ false
IsRealised ds (some d) =
    (any is_closing ds ≡ true)
    × (d.pnl ≡ realised ds)
    × (d.win ≡ ltb_ℤ (pos 0) (realised ds))
    × All (λ x. is_closing x ≡ true → opt_or x.time 0 ≤ d.close_time) ds

closed_from-IsRealised :
    (ticket : ℕ) (ds cs : List DealInfo)
    → keep_if is_closing ds ≡ cs
    → IsRealised ds (closed_from ticket ds cs)
closed_from-IsRealised ticket ds [] h = keep_if-nil is_closing ds h
closed_from-IsRealised ticket ds (c ∷ cs) h =
    let net = net_of-realised (pos 0) ds ∙ plus_zero (realised ds) in
    (
      keep_if-cons is_closing ds c cs h,
      net,
      ap (ltb_ℤ (pos 0)) net,
      All-keep_if is_closing (λ x. opt_or x.time 0 ≤ latest_of (c ∷ cs)) ds
          (subst (All (λ x. opt_or x.time 0 ≤ latest_of (c ∷ cs))) (sym h)
            (latest_of-All (c ∷ cs))),
    )

-- The broker's history decides: no answer without a closing deal, and an answer is the sum of all
-- four columns over every deal, its sign the win, its time at or after each closing deal.
pub get_closed_deal-IsRealised :
    {W : Type 0} (mt5 : Terminal W) (symbol : String) (ticket : ℕ) (w w' : W) (ds : List DealInfo)
    → mt5.history_deals_get ticket w ≡ (answered (some ds), w')
    → IsRealised ds (get_closed_deal mt5 symbol ticket w).0
unfolding get_closed_deal deals_from
get_closed_deal-IsRealised mt5 symbol ticket w w' ds h =
    rw h (closed_from-IsRealised ticket ds (keep_if is_closing ds) refl)
