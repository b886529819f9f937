-- ===== src/Market/Mt5/Shown.antt =====
-- zcastor/market/mt5.py: `state` shows the conditions that the gates saw.
use zcastor_agent.Base.{String, some, List, length, ◌≡◌, refl}
use zcastor_agent.Base.Int.{ℤ}
use zcastor_agent.Market.Port.{Cache, Venue, shown_open, state_of, get_tick, get_account}
use zcastor_agent.Market.Port.{get_open_positions}
use zcastor_agent.Market.Port.Instant.{Read, reads, reads-tick, reads-account, reads-positions}
use zcastor_agent.Market.Port.Instant.{tick_again, account_again, positions_again}
use zcastor_agent.Market.Mt5.{
  Terminal, Desk, venue, get_balance, get_free_margin, balance_of, state,
}
use zcastor_agent.Market.Mt5.{free_margin_of}

module _ {T A P W : Type 0} (v : Venue T A P W) (rs : List Read) (s : Cache T A P × W) where
  -- The desk after the three reads.
  abbrev three : Cache T A P × W
  three = (get_open_positions v (get_account v (get_tick v s).1).1).1

  tick_held : (reads v rs three).0.tick ≡ some (get_tick v s).0
  unfolding get_tick get_account get_open_positions
  tick_held = reads-tick v rs _ _ _ refl

  account_held : (reads v rs three).0.account ≡ some (get_account v (get_tick v s).1).0
  unfolding get_tick get_account get_open_positions
  account_held = reads-account v rs _ _ _ refl

  positions_held :
      (reads v rs three).0.positions
      ≡ some (get_open_positions v (get_account v (get_tick v s).1).1).0
  unfolding get_tick get_account get_open_positions
  positions_held = reads-positions v rs _ _ _ refl

module _ {W : Type 0} (mt5 : Terminal W) (symbol : String) where
  -- Once a decision has read the tick, the account and the positions, whatever it reads after that,
  -- the state that is hashed shows those three answers.
  pub state-reads :
      (rs : List Read) (opens : String → ℤ) (session : String) (s : Desk W)
      → let (t, s1) = get_tick (venue mt5 symbol) s in
        let (a, s2) = get_account (venue mt5 symbol) s1 in
        let (ps, s3) = get_open_positions (venue mt5 symbol) s2 in
        state mt5 symbol opens session (reads (venue mt5 symbol) rs s3) ≡ (
          state_of t
              (balance_of a)
              (free_margin_of a)
              (length ps)
              session
              (shown_open opens session),
          reads (venue mt5 symbol) rs s3,
        )
  unfolding state get_balance get_free_margin
  state-reads rs opens session s =
      let v = venue mt5 symbol in
      let (t, s1) = get_tick v s in
      let (a, s2) = get_account v s1 in
      let (ps, s3) = get_open_positions v s2 in
      rw (tick_again v t (reads v rs s3) (tick_held v rs s)) (
        rw (account_again v a (reads v rs s3) (account_held v rs s)) (
          rw (account_again v a (reads v rs s3) (account_held v rs s))
            (rw (positions_again v ps (reads v rs s3) (positions_held v rs s)) refl)))
