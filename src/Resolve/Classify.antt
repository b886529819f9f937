-- ===== src/Resolve/Classify.antt =====
-- zcastor/resolve/classify.py: what happened after a signal. Prices and distances are integers in
-- hundredths of a point. The verdict's numbers are left unrounded, and its dollar amount and its
-- ratio to the stop, products for the report, are left out.
pub mod Hits
use zcastor_agent.Base.{
  ℕ, ◌+◌, ◌*◌, ◌/◌, ◌%◌, String, str_mem, Bool, true, false, ◌&&◌, Option, none, some, List, [],
  ◌∷◌, length, ltb, ◌==◌, if◌then◌else◌,
}
use zcastor_agent.Base.Int.{ℤ, pos, pos_part, ◌+ℤ◌, ◌-ℤ◌, ltb_ℤ, leb_ℤ, neg}
use zcastor_agent.Base.Text.{lower, strip}

-- An M1 bar.
pub record Bar : Type 0 where
  pub high : ℤ
  pub low : ℤ
  pub close : ℤ

-- `is_buy`
unfoldable pub is_buy : String → Bool
is_buy direction = str_mem (lower (strip direction)) ("up" ∷ "buy" ∷ "long" ∷ [])

-- Python's `round` of a quotient: to the nearest integer, and to the even one of two.
unfoldable pub round_div : ℕ → ℕ → ℕ
round_div a b =
    let q = a / b in
    let r = 2 * (a % b) in
    if ltb r b then q else if ltb b r then q + 1 else if q % 2 == 0 then q else q + 1

-- The target: the given one, or the stop times the default ratio, in whole points.
unfoldable pub target_of : (sl tp : ℤ) → (rr_num rr_den : ℕ) → ℤ
unfolding round_div
target_of sl tp rr_num rr_den =
    if ltb_ℤ (pos 0) sl && leb_ℤ tp (pos 0)
    then pos (round_div (pos_part sl * rr_num) (100 * rr_den) * 100)
    else tp

pub data Result : Type 0 where
  timeout stopped reached : Result

-- The tests of the loop on a bar: does it touch the stop, and the target?
unfoldable pub hits_stop : Bool → (entry sl spread : ℤ) → Bar → Bool
hits_stop true entry sl spread bar = leb_ℤ bar.low (entry -ℤ sl)
hits_stop false entry sl spread bar = leb_ℤ (entry +ℤ sl) (bar.high +ℤ spread)

unfoldable pub hits_target : Bool → (entry tp spread : ℤ) → Bar → Bool
hits_target true entry tp spread bar = leb_ℤ (entry +ℤ tp) bar.high
hits_target false entry tp spread bar = leb_ℤ (bar.low +ℤ spread) (entry -ℤ tp)

-- The loop over the bars: the stop is tested first.
unfoldable pub first_hit : (stop target : Bar → Bool) → List Bar → Result
first_hit stop target [] = timeout
first_hit stop target (b ∷ bs) =
    let rest = first_hit stop target bs in
    if stop b then stopped else if target b then reached else rest

abbrev pub last_close : Bar → List Bar → ℤ
last_close b [] = b.close
last_close b (x ∷ xs) = last_close x xs

abbrev pub larger : ℤ → ℤ → ℤ
larger a b = if ltb_ℤ a b then b else a

abbrev pub smaller : ℤ → ℤ → ℤ
smaller a b = if ltb_ℤ b a then b else a

abbrev pub peak : Bar → List Bar → ℤ
peak b [] = b.high
peak b (x ∷ xs) = larger b.high (peak x xs)

abbrev pub trough : Bar → List Bar → ℤ
trough b [] = b.low
trough b (x ∷ xs) = smaller b.low (trough x xs)

-- The verdict that is returned.
pub record Judgement : Type 0 where
  pub outcome : Result
  pub won : Bool
  pub correct : Bool
  pub net_pts : ℤ
  pub close_pts : ℤ
  pub mfe_pts : ℤ
  pub mae_pts : ℤ
  pub bars : ℕ

-- The points of a trade, by how it ended.
unfoldable pub net_of : Result → Bool → (sl tp entry spread last : ℤ) → ℤ
net_of stopped buy sl tp entry spread last = neg sl
net_of reached buy sl tp entry spread last = tp
net_of timeout true sl tp entry spread last = last -ℤ entry
net_of timeout false sl tp entry spread last = entry -ℤ last -ℤ spread

-- `classify`, on at least one bar.
unfoldable pub judge_bars : Bool → (ref_price sl tp spread : ℤ) → Bar → List Bar → Judgement
unfolding net_of first_hit
judge_bars buy ref sl tp spread b bs =
    let entry = if buy then ref +ℤ spread else ref in
    let out =
      if ltb_ℤ (pos 0) sl && ltb_ℤ (pos 0) tp
      then first_hit (hits_stop buy entry sl spread) (hits_target buy entry tp spread) (b ∷ bs)
      else timeout in
    let last = last_close b bs in
    let net = net_of out buy sl tp entry spread last in
    let close = if buy then last -ℤ ref else ref -ℤ last in
    record {
      outcome = out;
      won = ltb_ℤ (pos 0) net;
      correct = ltb_ℤ (pos 0) close;
      net_pts = net;
      close_pts = close;
      mfe_pts = larger (pos 0) (if buy then peak b bs -ℤ ref else ref -ℤ trough b bs);
      mae_pts = larger (pos 0) (if buy then ref -ℤ trough b bs else peak b bs -ℤ ref);
      bars = length (b ∷ bs);
    }

-- `classify`: `none` with no bars.
unfoldable pub classify :
    String → (ref_price sl tp spread : ℤ) → (rr_num rr_den : ℕ) → List Bar → Option Judgement
unfolding judge_bars target_of is_buy
classify direction ref sl tp spread rr_num rr_den [] = none
classify direction ref sl tp spread rr_num rr_den (b ∷ bs) =
    some (judge_bars (is_buy direction) ref sl (target_of sl tp rr_num rr_den) spread b bs)
