-- ===== src/Market/Mt5/Deals.antt =====
-- zcastor/market/mt5.py: `get_closed_deal`, from the history that the terminal gives.
use zcastor_agent.Base.{ℕ, ◌+◌, Bool, Option, none, some, List, [], ◌∷◌}
use zcastor_agent.Base.{keep_if, ltb, ◌==◌, opt_or, if◌then◌else◌}
use zcastor_agent.Base.Int.{ℤ, pos, ◌+ℤ◌, ◌*ℤ◌, ltb_ℤ}
use zcastor_agent.Gates.Feed.{round_signed}
use zcastor_agent.Market.Port.{Reply, raised, answered}

-- `_f(value, default)`
abbrev pub number_or : Option ℤ → ℤ → ℤ
number_or v d = opt_or v d

-- One deal of a position's history.
pub record DealInfo : Type 0 where
  pub profit : Option ℤ
  pub swap : Option ℤ
  pub commission : Option ℤ
  pub fee : Option ℤ
  pub entry : Option ℕ
  pub volume : Option ℕ
  pub price : Option ℤ
  pub time : Option ℕ

pub record ClosedDeal : Type 0 where
  pub ticket : ℕ
  pub pnl : ℤ
  pub close_price : ℤ
  pub close_time : ℕ
  pub win : Bool

-- One pass over the history: the four fields of each deal, into `net`.
abbrev pub net_of : ℤ → List DealInfo → ℤ
net_of net [] = net
net_of net (d ∷ ds) =
    net_of
      (net
        +ℤ number_or d.profit (pos 0)
        +ℤ number_or d.swap (pos 0)
        +ℤ number_or d.commission (pos 0)
        +ℤ number_or d.fee (pos 0))
      ds

-- `DEAL_ENTRY_OUT`
abbrev pub is_closing : DealInfo → Bool
is_closing d = opt_or d.entry 0 == 1

abbrev pub volume_of : List DealInfo → ℕ
volume_of [] = 0
volume_of (d ∷ ds) = opt_or d.volume 0 + volume_of ds

-- The sum of price times volume.
abbrev pub value_of : List DealInfo → ℤ
value_of [] = pos 0
value_of (d ∷ ds) = number_or d.price (pos 0) *ℤ pos (opt_or d.volume 0) +ℤ value_of ds

abbrev pub latest_of : List DealInfo → ℕ
latest_of [] = 0
latest_of (d ∷ ds) =
    let t = opt_or d.time 0 in let rest = latest_of ds in if ltb t rest then rest else t

-- A total volume of zero is replaced by one lot.
abbrev pub total_of : List DealInfo → ℕ
total_of ds = if volume_of ds == 0 then 100 else volume_of ds

abbrev pub closed_from : ℕ → List DealInfo → List DealInfo → Option ClosedDeal
closed_from ticket deals [] = none
closed_from ticket deals (c ∷ cs) = some (record {
  ticket = ticket;
  pnl = net_of (pos 0) deals;
  close_price = round_signed (value_of (c ∷ cs)) (total_of (c ∷ cs));
  close_time = latest_of (c ∷ cs);
  win = ltb_ℤ (pos 0) (net_of (pos 0) deals);
})

unfoldable pub deals_from : ℕ → Reply (Option (List DealInfo)) → Option ClosedDeal
deals_from ticket (raised e) = none
deals_from ticket (answered none) = none
deals_from ticket (answered (some deals)) = closed_from ticket deals (keep_if is_closing deals)
