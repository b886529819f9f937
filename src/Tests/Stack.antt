-- ===== src/Tests/Stack.antt =====
-- The server's stack on a broken account, and a feed that stands still.
use zcastor_agent.Base.{ℕ, none, [], ◌∷◌, ◌+◌, ltb, ◌≡◌, refl}
use zcastor_agent.Base.Int.{negsuc}
use zcastor_agent.Gates.Context.{GateContext}
use zcastor_agent.Gates.Feed.{FeedMemory, evaluate_feed, stale_limit}
use zcastor_agent.Gates.Feed.Frozen.{is_stale, observe, frozen-is_stale}
use zcastor_agent.Tests.Desk.{context}

abbrev no_tick : FeedMemory
no_tick = record { last_tick_time = none; first_seen_at = none }

-- A loss of 4000 that leaves a balance of 1000.
abbrev broken : GateContext
broken = record context { adapters = record context.adapters { today_pnl = negsuc 399999 } }

-- The same tick, after one minute and after five.
abbrev at : ℕ → GateContext
at now = record context { adapters = record context.adapters { clock = now } }

frozen-is_stale_example :
    is_stale (evaluate_feed (observe (at 500000 ∷ at 560000 ∷ []) no_tick) (at 800000)).0.0
    ≡ ltb (500000 + stale_limit (at 800000)) 800000
frozen-is_stale_example =
    frozen-is_stale 1 no_tick (at 500000) (at 560000 ∷ []) (at 800000) refl refl refl
      (refl, (refl, tt)) refl
