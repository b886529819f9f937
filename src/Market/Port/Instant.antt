-- ===== src/Market/Port/Instant.antt =====
-- zcastor/market/mt5.py: one decision reads one set of conditions.
use zcastor_agent.Base.{some, List, [], ◌∷◌, ◌≡◌, refl}
use zcastor_agent.Market.Port.{Cache, Venue, get_tick, get_account, get_open_positions}

-- What a gate can ask of the port.
pub data Read : Type 0 where
  tick account positions : Read

module _ {T A P W : Type 0} (v : Venue T A P W) where
  -- The state after one read, and after a list of reads in order.
  abbrev pub read : Read → Cache T A P × W → Cache T A P × W
  read tick s = (get_tick v s).1
  read account s = (get_account v s).1
  read positions s = (get_open_positions v s).1

  abbrev pub reads : List Read → Cache T A P × W → Cache T A P × W
  reads [] s = s
  reads (r ∷ rs) s = reads rs (read r s)

  pub reads-tick :
      (rs : List Read) (t : T) (c : Cache T A P) (w : W)
      → c.tick ≡ some t
      → (reads rs (c, w)).0.tick ≡ some t
  unfolding get_tick get_account get_open_positions
  reads-tick [] t c w h = h
  reads-tick (tick ∷ rs) t c w h = reads-tick rs t _ _ (rw h refl)
  reads-tick (account ∷ rs) t c w h = reads-tick rs t _ _ h
  reads-tick (positions ∷ rs) t c w h = reads-tick rs t _ _ h

  pub reads-account :
      (rs : List Read) (a : A) (c : Cache T A P) (w : W)
      → c.account ≡ some a
      → (reads rs (c, w)).0.account ≡ some a
  unfolding get_tick get_account get_open_positions
  reads-account [] a c w h = h
  reads-account (tick ∷ rs) a c w h = reads-account rs a _ _ h
  reads-account (account ∷ rs) a c w h = reads-account rs a _ _ (rw h refl)
  reads-account (positions ∷ rs) a c w h = reads-account rs a _ _ h

  pub reads-positions :
      (rs : List Read) (p : P) (c : Cache T A P) (w : W)
      → c.positions ≡ some p
      → (reads rs (c, w)).0.positions ≡ some p
  unfolding get_tick get_account get_open_positions
  reads-positions [] p c w h = h
  reads-positions (tick ∷ rs) p c w h = reads-positions rs p _ _ h
  reads-positions (account ∷ rs) p c w h = reads-positions rs p _ _ h
  reads-positions (positions ∷ rs) p c w h = reads-positions rs p _ _ (rw h refl)

  pub tick_again : (t : T) (s : Cache T A P × W) → s.0.tick ≡ some t → get_tick v s ≡ (t, s)
  unfolding get_tick
  tick_again t s h = rw h refl

  pub account_again :
      (a : A) (s : Cache T A P × W) → s.0.account ≡ some a → get_account v s ≡ (a, s)
  unfolding get_account
  account_again a s h = rw h refl

  pub positions_again :
      (p : P) (s : Cache T A P × W) → s.0.positions ≡ some p → get_open_positions v s ≡ (p, s)
  unfolding get_open_positions
  positions_again p s h = rw h refl

  -- Between two reads of the tick the venue may be asked for anything: the second answers what the
  -- first did and does not ask the venue. The same holds of the account and of the positions.
  pub reads-instant :
      (rs : List Read) (s : Cache T A P × W)
      → (let (t, s') = get_tick v s in get_tick v (reads rs s') ≡ (t, reads rs s'))
        × (let (a, s') = get_account v s in get_account v (reads rs s') ≡ (a, reads rs s'))
        × (let (p, s') = get_open_positions v s in
            get_open_positions v (reads rs s') ≡ (p, reads rs s'))
  unfolding get_tick get_account get_open_positions
  reads-instant rs s = (
    tick_again _ _ (reads-tick rs _ _ _ refl),
    account_again _ _ (reads-account rs _ _ _ refl),
    positions_again _ _ (reads-positions rs _ _ _ refl),
  )
