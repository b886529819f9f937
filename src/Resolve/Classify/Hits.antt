-- ===== src/Resolve/Classify/Hits.antt =====
-- zcastor/resolve/classify.py: a trade is scored by the first bar that decides it, to its loss where
-- a bar leaves that open.
use zcastor_agent.Base.{
  ◌≡◌, refl, Bool, true, false, ◌&&◌, List, [], ◌∷◌, ◌++◌, All, arith, Bool-cases, inl, inr,
  if◌then◌else◌,
}
use zcastor_agent.Base.Int.{ℤ, pos, ◌+ℤ◌, ◌<ℤ◌, ltb_ℤ, neg, neg_parts}
use zcastor_agent.Resolve.Classify.{
  Bar, Result, timeout, stopped, reached, first_hit, hits_stop, hits_target, judge_bars, net_of,
}

-- No bar touches the stop or the target.
abbrev pub Untouched : (stop target : Bar → Bool) → List Bar → Type 0
Untouched stop target = All (λ b. (stop b ≡ false) × (target b ≡ false))

-- What each ending says of the bars.
abbrev pub Explains : (stop target : Bar → Bool) → List Bar → Result → Type 0
Explains stop target bs timeout = Untouched stop target bs
Explains stop target bs stopped =
    (pre : List Bar) × (b : Bar) × (post : List Bar) × (bs ≡ pre ++ b ∷ post)
    × Untouched stop target pre
    × (stop b ≡ true)
Explains stop target bs reached =
    (pre : List Bar) × (b : Bar) × (post : List Bar) × (bs ≡ pre ++ b ∷ post)
    × Untouched stop target pre
    × (stop b ≡ false)
    × (target b ≡ true)

Explains-cons :
    (stop target : Bar → Bool) (b : Bar) (bs : List Bar) (r : Result)
    → stop b ≡ false
    → target b ≡ false
    → Explains stop target bs r
    → Explains stop target (b ∷ bs) r
Explains-cons stop target b bs timeout s t h = ((s, t), h)
Explains-cons stop target b bs stopped s t (pre, x, post, e, u, hit) =
    (b ∷ pre, x, post, rw e, ((s, t), u), hit)
Explains-cons stop target b bs reached s t (pre, x, post, e, u, miss, hit) =
    (b ∷ pre, x, post, rw e, ((s, t), u), miss, hit)

first_hit-Explains :
    (stop target : Bar → Bool) (bs : List Bar) → Explains stop target bs (first_hit stop target bs)
unfolding first_hit
first_hit-Explains stop target [] = tt
first_hit-Explains stop target (b ∷ bs) = elim (Bool-cases (stop b)) [
  | inl hit ↦ rw hit ([], b, bs, refl, tt, hit)
  | inr miss ↦ rw miss (elim (Bool-cases (target b)) [
    | inl won ↦ rw won ([], b, bs, refl, tt, miss, won)
    | inr open_yet ↦ rw open_yet (
        Explains-cons stop target b bs (first_hit stop target bs) miss open_yet
          (first_hit-Explains stop target bs))
  ])
]

-- With a positive stop and a positive target, the outcome of a trade is that of the first bar that
-- touches either: the stop if it touches the stop, even if it touches the target as well, and the
-- target otherwise; it is a timeout exactly where no bar touches any of them.
pub outcome-Explains :
    (buy : Bool) (ref_price sl tp spread : ℤ) (b : Bar) (bs : List Bar)
    → pos 0 <ℤ sl
    → pos 0 <ℤ tp
    → let entry = if buy then ref_price +ℤ spread else ref_price in
      Explains
        (hits_stop buy entry sl spread)
        (hits_target buy entry tp spread)
        (b ∷ bs)
        (judge_bars buy ref_price sl tp spread b bs).outcome
unfolding judge_bars
outcome-Explains buy ref sl tp spread b bs hs ht =
    let entry = if buy then ref +ℤ spread else ref in
    let armed : (ltb_ℤ (pos 0) sl && ltb_ℤ (pos 0) tp) ≡ true = ground arith in
    rw armed (
      first_hit-Explains (hits_stop buy entry sl spread) (hits_target buy entry tp spread) (b ∷ bs))

net_of_stopped :
    (o : Result) (buy : Bool) (sl tp entry spread last : ℤ)
    → pos 0 <ℤ sl
    → o ≡ stopped
    → (net_of o buy sl tp entry spread last ≡ neg sl)
      × (ltb_ℤ (pos 0) (net_of o buy sl tp entry spread last) ≡ false)
unfolding net_of
net_of_stopped o buy sl tp entry spread last h e = rw e (refl, ground (arith, neg_parts sl))

net_of_reached :
    (o : Result) (buy : Bool) (sl tp entry spread last : ℤ)
    → pos 0 <ℤ tp
    → o ≡ reached
    → (net_of o buy sl tp entry spread last ≡ tp)
      × (ltb_ℤ (pos 0) (net_of o buy sl tp entry spread last) ≡ true)
unfolding net_of
net_of_reached o buy sl tp entry spread last h e = rw e (refl, ground arith)

-- With a positive stop and a positive target, a trade that was stopped loses exactly the stop and is
-- not won, and one that reached its target gains exactly the target and is won.
pub net_pts_bounds :
    (buy : Bool) (ref_price sl tp spread : ℤ) (b : Bar) (bs : List Bar)
    → pos 0 <ℤ sl
    → pos 0 <ℤ tp
    → let j = judge_bars buy ref_price sl tp spread b bs in
      (j.outcome ≡ stopped → (j.net_pts ≡ neg sl) × (j.won ≡ false))
      × (j.outcome ≡ reached → (j.net_pts ≡ tp) × (j.won ≡ true))
unfolding judge_bars
net_pts_bounds buy ref sl tp spread b bs hs ht =
    (net_of_stopped _ buy sl tp _ spread _ hs, net_of_reached _ buy sl tp _ spread _ ht)
