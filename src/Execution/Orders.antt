-- ===== src/Execution/Orders.antt =====
-- zcastor/execution/orders.py: orders on MT5. The terminal is a parameter; prices are integers, and
-- `rounded` is `round` to the digits of the symbol, which is read once for each order.
pub mod Requests
use Prim.Native.String.{◌++◌ as append}
use zcastor_agent.Base.{
  ℕ, String, str_eq, Bool, true, false, not, ◌&&◌, ◌||◌, Option, none, some, List, [], ◌∷◌, ◌==◌,
  if◌then◌else◌, opt_or, find_first,
}
use zcastor_agent.Base.Int.{ℤ, pos, leb_ℤ}
use zcastor_agent.Base.Text.{show, upper}

-- The filling modes, in the order in which they are tried.
pub data Filling : Type 0 where
  ioc fok return : Filling

abbrev pub filling_modes : List Filling
filling_modes = ioc ∷ fok ∷ return ∷ []

-- A request, without the constants of every request.
pub record Request : Type 0 where
  pub buys : Bool
  pub volume : ℕ
  pub price : ℤ
  pub sl : Option ℤ
  pub tp : Option ℤ
  pub position : Option ℕ
  pub filling : Option Filling

-- How a call of `order_send` ends: it raises, returns `None`, or returns a result.
pub data SendAnswer : Type 0 where
  raised : String → SendAnswer
  returned_none : SendAnswer
  returned : (retcode order : ℕ) (comment : String) → SendAnswer

-- The terminal: `order_send`, `last_error`, the tick (`none` where it is missing or raises), and the
-- tickets and volumes of the open positions, none where the call raises.
pub record Terminal (W : Type 0) : Type 0 where
  pub order_send : Request → W → SendAnswer × W
  pub last_error : W → String × W
  pub symbol_info_tick : W → Option (ℤ × ℤ) × W
  pub positions_get : W → List (ℕ × ℕ) × W

-- `OrderPlacer`
pub record OrderPlacer : Type 0 where
  pub volume : ℕ
  pub rounded : ℤ → ℤ

-- A dict with "error" in it, or what the call gives.
pub data Answer (A : Type 0) : Type 0 where
  ok : A → Answer A
  error : String → Answer A

abbrev pub retcode_done : ℕ
retcode_done = 10009

abbrev pub retcode_bad_filling : ℕ
retcode_bad_filling = 10030

-- The result of `_send` after the loop, on the retcode of the last answer.
unfoldable pub settled : (retcode order : ℕ) (comment : String) → Answer ℕ
settled retcode order comment =
    if retcode == retcode_done
    then ok order
    else error (append "order rejected (retcode " (append (show retcode) (append "): " comment)))

module _ {W : Type 0} (t : Terminal W) where
  -- A round of the loop of `_send` after the call; `again` is the rest of the loop.
  unfoldable pub after_send :
      ((retcode order : ℕ) (comment : String) → W → Answer ℕ × W) → SendAnswer → W → Answer ℕ × W
  unfolding settled
  after_send again (raised why) w = (error (append "order_send failed: " why), w)
  after_send again returned_none w =
      let (why, w') = t.last_error w in (error (append "order_send returned None — " why), w')
  after_send again (returned code order comment) w =
      let rest = again code order comment w in
      if code == retcode_bad_filling then rest else (settled code order comment, w)

  -- The loop of `_send`, with the last answer that was returned.
  unfoldable pub try_modes :
      List Filling → Request → (retcode order : ℕ) (comment : String) → W → Answer ℕ × W
  unfolding settled after_send
  try_modes [] r retcode order comment w = (settled retcode order comment, w)
  try_modes (m ∷ ms) r retcode order comment w =
      let (a, w') = t.order_send (record r { filling = some m }) w in
      after_send (try_modes ms r) a w'

  -- `_send`: a ticket, or the error.
  unfoldable pub send : Request → W → Answer ℕ × W
  unfolding try_modes
  send r w = try_modes filling_modes r 0 0 "" w

-- What a filled order gives.
pub record Filled : Type 0 where
  pub ticket : ℕ
  pub side : String
  pub price : ℤ
  pub sl : ℤ
  pub tp : Option ℤ

-- Is the number missing or zero?
abbrev pub is_zero : ℤ → Bool
is_zero v = leb_ℤ v (pos 0) && leb_ℤ (pos 0) v

abbrev pub wrong_side : Bool → ℤ → ℤ → Bool
wrong_side buys tp price = if buys then leb_ℤ tp price else leb_ℤ price tp

-- The target of the request: it is dropped on the wrong side of the price.
unfoldable pub target_of : OrderPlacer → Bool → ℤ → Option ℤ → Option ℤ
target_of p buys price none = none
target_of p buys price (some tp) =
    if is_zero tp then none else if wrong_side buys tp price then none else some (p.rounded tp)

abbrev pub market_request : OrderPlacer → Bool → ℤ → ℤ → Option ℤ → Request
market_request p buys price sl tp = record {
  buys = buys;
  volume = p.volume;
  price = price;
  sl = some (p.rounded sl);
  tp = target_of p buys price tp;
  position = none;
  filling = none;
}

-- What `market_order` returns, on the answer of `_send`.
abbrev pub filled_as : Answer ℕ → String → ℤ → ℤ → Option ℤ → Answer Filled
filled_as (error why) side price sl tp = error why
filled_as (ok ticket) side price sl tp =
    ok (record { ticket = ticket; side = side; price = price; sl = sl; tp = tp })

-- The volume of the position, else the placer's.
abbrev pub volume_of : ℕ → ℕ → List (ℕ × ℕ) → ℕ
volume_of default ticket [] = default
volume_of default ticket ((u, v) ∷ ps) = if u == ticket then v else volume_of default ticket ps

module _ {W : Type 0} (t : Terminal W) (p : OrderPlacer) where
  -- `market_order`
  unfoldable pub market_order : String → (price sl : ℤ) → Option ℤ → W → Answer Filled × W
  unfolding send
  market_order word price sl tp w =
      let side = upper word in
      let buys = str_eq side "BUY" in
      let request = market_request p buys price sl tp in
      let (a, w') = send t request w in
      if buys || str_eq side "SELL"
      then (filled_as a side price sl request.tp, w')
      else (error (append "bad side '" (append side "'")), w)

  -- `close_position`, with the ticket and the price that it returns.
  unfoldable pub close_at : Option (ℤ × ℤ) → ℕ → String → W → Answer (ℕ × ℤ) × W
  unfolding send
  close_at none ticket side w = (error "no tick", w)
  close_at (some (ask, bid)) ticket side w =
      let buys = str_eq (upper side) "SELL" in
      let price = if buys then ask else bid in
      let (held, w') = t.positions_get w in
      let request : Request = record {
        buys = buys;
        volume = volume_of p.volume ticket held;
        price = price;
        sl = none;
        tp = none;
        position = some ticket;
        filling = none;
      } in
      let (a, w'') = send t request w' in
      (elim a [ ok order ↦ ok (ticket, price) | error why ↦ error why ], w'')

  unfoldable pub close_position : ℕ → String → W → Answer (ℕ × ℤ) × W
  unfolding close_at
  close_position ticket side w =
      let (tick, w') = t.symbol_info_tick w in close_at tick ticket side w'
