-- ===== src/Execution/Orders/Requests.antt =====
-- zcastor/execution/orders.py: trying the filling modes one after another never fills an order twice.
use zcastor_agent.Base.{
  ℕ, String, str_eq, ◌≡◌, refl, ap, ◌∙◌, ◌⊎◌, Bool, true, false, ◌||◌, Option, some, List, [], ◌∷◌,
  arith, Bool-cases, inl, inr, ◌==◌, if◌then◌else◌,
}
use zcastor_agent.Base.Int.{ℤ}
use zcastor_agent.Base.Text.{upper}
use zcastor_agent.Execution.Orders.{
  Filling, Request, SendAnswer, raised, returned_none, returned, Terminal, OrderPlacer, Answer, ok,
  error, settled, after_send, try_modes, send, filling_modes, market_request, filled_as,
  market_order, retcode_done, retcode_bad_filling,
}

same_number : (a b : ℕ) → (a == b) ≡ true → a ≡ b
same_number a b h = ground arith

-- The requests that the terminal executed, newest first, beside the world. Which calls are executed
-- is up to the terminal, and an answer need not tell: an order may be filled in part or be placed and
-- answered with another code, or be executed by a call that raises.
abbrev pub Book : Type 0 → Type 0
Book W = W × List Request

abbrev pub Executes : Type 0 → Type 0
Executes W = Request → W → Bool

-- The terminal that keeps such a list and is otherwise the given one.
unfoldable pub booking : {W : Type 0} → Executes W → Terminal W → Terminal (Book W)
booking executes t = record {
  order_send =
      λ r w. let (a, w') = t.order_send r w.0 in (a, (w', if executes r w.0 then r ∷ w.1 else w.1));
  last_error = λ w. ((t.last_error w.0).0, ((t.last_error w.0).1, w.1));
  symbol_info_tick = λ w. ((t.symbol_info_tick w.0).0, ((t.symbol_info_tick w.0).1, w.1));
  positions_get = λ w. ((t.positions_get w.0).0, ((t.positions_get w.0).1, w.1));
}

-- What the documentation of the terminal says of two codes: 10009 is a request that was completed, and
-- 10030 is a request that was refused for its filling mode.
pub record IsHonest {W : Type 0} (executes : Executes W) (t : Terminal W) : Type 0 where
  pub done :
      (r : Request) (w : W) (order : ℕ) (text : String)
      → (t.order_send r w).0 ≡ returned retcode_done order text
      → executes r w ≡ true
  pub bad_filling :
      (r : Request) (w : W) (order : ℕ) (text : String)
      → (t.order_send r w).0 ≡ returned retcode_bad_filling order text
      → executes r w ≡ false

-- The request was executed once, in some filling mode.
abbrev pub IsOnce : Request → List Request → List Request → Type 0
IsOnce r before after = (m : Filling) × (after ≡ record r { filling = some m } ∷ before)

-- Executed once under a ticket, and once at most under an error.
abbrev pub Fills : {A : Type 0} → Answer A → Request → List Request → List Request → Type 0
Fills (ok a) r before after = IsOnce r before after
Fills (error why) r before after = (after ≡ before) ⊎ IsOnce r before after

IsOnce-at_most :
    (m : Filling) (r : Request) (x : Bool) (rs : List Request)
    → let after = if x then record r { filling = some m } ∷ rs else rs in
      (after ≡ rs) ⊎ IsOnce r rs after
IsOnce-at_most m r true rs = inr (m, refl)
IsOnce-at_most m r false rs = inl refl

settled-Fills :
    (m : Filling) (r : Request) (x : Bool) (code order : ℕ) (text : String) (rs : List Request)
    → ((code == retcode_done) ≡ true → x ≡ true)
    → Fills (settled code order text) r rs (if x then record r { filling = some m } ∷ rs else rs)
unfolding settled
settled-Fills m r x code order text rs h = elim (Bool-cases (code == retcode_done)) [
  | inl done ↦ rw (done, h done) (m, refl)
  | inr other ↦ rw other (IsOnce-at_most m r x rs)
]

module _ {W : Type 0} (executes : Executes W) (t : Terminal W) where
  after_send-Fills :
      (again : (retcode order : ℕ) (comment : String) → Book W → Answer ℕ × Book W) (m : Filling)
      (r : Request) (a : SendAnswer) (x : Bool) (w : W) (rs : List Request)
      → ((code order : ℕ) (text : String)
          → a ≡ returned code order text
          → ((code == retcode_done) ≡ true → x ≡ true)
            × ((code == retcode_bad_filling) ≡ true → x ≡ false))
      → ((code order : ℕ) (text : String) (w' : Book W)
          → (code == retcode_done) ≡ false
          → let (y, w'') = again code order text w' in Fills y r w'.1 w''.1)
      → let booked = if x then record r { filling = some m } ∷ rs else rs in
        let (y, w'') = after_send (booking executes t) again a (w, booked) in Fills y r rs w''.1
  unfolding after_send booking
  after_send-Fills again m r (raised why) x w rs honest h = IsOnce-at_most m r x rs
  after_send-Fills again m r returned_none x w rs honest h = IsOnce-at_most m r x rs
  after_send-Fills again m r (returned code order text) x w rs honest h =
      let (done, bad_filling) = honest code order text refl in
      elim (Bool-cases (code == retcode_bad_filling)) [
        | inl bad ↦
            let not_done : (code == retcode_done) ≡ false = ground arith in
            rw (bad, bad_filling bad) (h code order text (w, rs) not_done)
        | inr other ↦ rw other (settled-Fills m r x code order text rs done)
      ]

  codes-honest :
      IsHonest executes t
      → (r : Request) (w : W) (code order : ℕ) (text : String)
      → (t.order_send r w).0 ≡ returned code order text
      → ((code == retcode_done) ≡ true → executes r w ≡ true)
        × ((code == retcode_bad_filling) ≡ true → executes r w ≡ false)
  codes-honest honest r w code order text e = (
    λ d. honest.done r w order text (e ∙ ap (λ c. returned c order text) (same_number code _ d)),
    λ b.
        honest.bad_filling r w order text
          (e ∙ ap (λ c. returned c order text) (same_number code _ b)),
  )

  try_modes-Fills :
      IsHonest executes t
      → (ms : List Filling) (r : Request) (code order : ℕ) (text : String) (w : Book W)
      → (code == retcode_done) ≡ false
      → let (a, w') = try_modes (booking executes t) ms r code order text w in Fills a r w.1 w'.1
  unfolding try_modes booking settled
  try_modes-Fills honest [] r code order text w h = rw h (inl refl)
  try_modes-Fills honest (m ∷ ms) r code order text w h =
      let r' = record r { filling = some m } in
      let (a, w') = t.order_send r' w.0 in
      after_send-Fills (try_modes (booking executes t) ms r) m r a (executes r' w.0) w' w.1
        (codes-honest honest r' w.0) (λ c o x v e. try_modes-Fills honest ms r c o x v e)

  filled_as-Fills :
      (a : Answer ℕ) (side : String) (price sl : ℤ) (tp : Option ℤ) (r : Request)
      (before after : List Request)
      → Fills a r before after
      → Fills (filled_as a side price sl tp) r before after
  filled_as-Fills (ok ticket) side price sl tp r before after h = h
  filled_as-Fills (error why) side price sl tp r before after h = h

  -- Over a terminal that executes what it answers with 10009 and does not execute what it answers with
  -- 10030, and may do anything else: a market order that gives a ticket was executed exactly once, in
  -- one of the filling modes and otherwise as the request for its side, price, stop and target; one
  -- that gives an error was executed at most once, as that request.
  pub market_order-Fills :
      IsHonest executes t
      → (p : OrderPlacer) (side : String) (price sl : ℤ) (tp : Option ℤ) (w : Book W)
      → let (a, w') = market_order (booking executes t) p side price sl tp w in
        Fills a (market_request p (str_eq (upper side) "BUY") price sl tp) w.1 w'.1
  unfolding market_order send
  market_order-Fills honest p side price sl tp w =
      let buys = str_eq (upper side) "BUY" in
      let r = market_request p buys price sl tp in
      let sent = try_modes-Fills honest filling_modes r 0 0 "" w refl in
      elim (Bool-cases (buys || str_eq (upper side) "SELL")) [
        | inl known ↦ rw known (filled_as-Fills _ (upper side) price sl r.tp r _ _ sent)
        | inr unknown ↦ rw unknown (inl refl)
      ]
