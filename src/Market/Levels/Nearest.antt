-- ===== src/Market/Levels/Nearest.antt =====
-- zcastor/market/levels.py: what the two queries answer, and when the levels change.
use mathlib.Core.Path.{subst}
use mathlib.Core.Option.{some-injective}
use zcastor_agent.Base.{All-keep_if, keep_if-nil, ◌⊎◌, ◌||◌}
use zcastor_agent.Base.{ℕ, Bool, true, false, ◌≡◌, refl, sym, ap, ◌∙◌}
use zcastor_agent.Base.{Option, none, some, List, [], ◌∷◌, All, any, keep_if, arith}
use zcastor_agent.Base.{inl, inr, Bool-cases, if◌then◌else◌}
use zcastor_agent.Base.Int.{ℤ, ltb_ℤ}
use zcastor_agent.Market.Levels.{HourlyLevels, Rates, larger, smaller, max_from, min_from, max_list}
use zcastor_agent.Market.Levels.{min_list, same_price, refresh, nearest_support, nearest_resistance}
use zcastor_agent.Market.Levels.Swings.{
  eq_of_same, IsBelow, IsAbove, IsBest, max_list-IsBest, min_list-IsBest,
}

abbrev among : ℤ → List ℤ → Bool
among m xs = any (same_price m) xs

-- The stored level on the asked side that no other on that side comes before.
abbrev pub IsNearest : (ℤ → ℤ → Type 0) → (ℤ → Bool) → List ℤ → Option ℤ → Type 0
IsNearest R side levels none = any side levels ≡ false
IsNearest R side levels (some m) =
    (among m levels ≡ true) × (side m ≡ true) × All (λ lv. side lv ≡ true → R m lv) levels

max_from-among : (m : ℤ) (xs : List ℤ) → among (max_from m xs) (m ∷ xs) ≡ true
max_from-among m [] = ground arith
max_from-among m (x ∷ xs) = ground (arith, max_from-among (larger m x) xs)

min_from-among : (m : ℤ) (xs : List ℤ) → among (min_from m xs) (m ∷ xs) ≡ true
min_from-among m [] = ground arith
min_from-among m (x ∷ xs) = ground (arith, min_from-among (smaller m x) xs)

or-true : (a b : Bool) → b ≡ true → a || b ≡ true
or-true true b h = refl
or-true false b h = h

or-cases : (a b : Bool) → a || b ≡ true → (a ≡ true) ⊎ (b ≡ true)
or-cases true b h = inl refl
or-cases false b h = inr h

among-keep_if :
    (p : ℤ → Bool) (m : ℤ) (xs : List ℤ)
    → among m (keep_if p xs) ≡ true
    → (among m xs ≡ true) × (p m ≡ true)
among-keep_if p m [] h = ground arith
among-keep_if p m (x ∷ xs) h = elim (Bool-cases (p x)) [
  | inl t ↦
      elim (or-cases (same_price m x) (among m (keep_if p xs))
        (subst (λ b. among m (if b then x ∷ keep_if p xs else keep_if p xs) ≡ true) t h)) [
          | inl same ↦ (rw same refl, ap p (sym (eq_of_same x m same)) ∙ t)
          | inr later ↦
              let rest = among-keep_if p m xs later in (or-true (same_price m x) _ rest.0, rest.1)
        ]
  | inr f ↦
      let rest =
        among-keep_if p m xs
          (subst (λ b. among m (if b then x ∷ keep_if p xs else keep_if p xs) ≡ true) f h) in
      (or-true (same_price m x) _ rest.0, rest.1)
]

chosen :
    (R : ℤ → ℤ → Type 0) (best : List ℤ → Option ℤ)
    → IsBest R best
    → ((xs : List ℤ) (m : ℤ) → best xs ≡ some m → among m xs ≡ true)
    → ((xs : List ℤ) → best xs ≡ none → xs ≡ [])
    → (p : ℤ → Bool) (xs : List ℤ) (r : Option ℤ) → best (keep_if p xs) ≡ r
    → IsNearest R p xs r
chosen R best is_best found empty p xs none h = keep_if-nil p xs (empty (keep_if p xs) h)
chosen R best is_best found empty p xs (some m) h =
    let here = among-keep_if p m xs (found (keep_if p xs) m h) in
    (here.0, here.1, All-keep_if p (R m) xs (is_best (keep_if p xs) m h))

max_list-among : (xs : List ℤ) (m : ℤ) → max_list xs ≡ some m → among m xs ≡ true
max_list-among [] m h = cc
max_list-among (x ∷ xs) m h =
    subst (λ t. among t (x ∷ xs) ≡ true) (some-injective (max_from x xs) m h) (max_from-among x xs)

min_list-among : (xs : List ℤ) (m : ℤ) → min_list xs ≡ some m → among m xs ≡ true
min_list-among [] m h = cc
min_list-among (x ∷ xs) m h =
    subst (λ t. among t (x ∷ xs) ≡ true) (some-injective (min_from x xs) m h) (min_from-among x xs)

max_list-none : (xs : List ℤ) → max_list xs ≡ none → xs ≡ []
max_list-none [] h = refl
max_list-none (x ∷ xs) h = cc

min_list-none : (xs : List ℤ) → min_list xs ≡ none → xs ≡ []
min_list-none [] h = refl
min_list-none (x ∷ xs) h = cc

-- Both queries on the levels that they leave.
pub nearest_support-IsNearest :
    (rates : Rates) (now : ℕ) (price : ℤ) (s : HourlyLevels)
    → let (support, s') = nearest_support rates now price s in
      let (resistance, s'') = nearest_resistance rates now price s in
      IsNearest IsBelow (λ lv. ltb_ℤ lv price) s'.lows support
      × IsNearest IsAbove (λ lv. ltb_ℤ price lv) s''.highs resistance
unfolding nearest_support nearest_resistance
nearest_support-IsNearest rates now price s = (
  chosen IsBelow max_list max_list-IsBest max_list-among max_list-none (λ lv. ltb_ℤ lv price)
      (refresh rates false now s).1.lows _ refl,
  chosen IsAbove min_list min_list-IsBest min_list-among min_list-none (λ lv. ltb_ℤ price lv)
      (refresh rates false now s).1.highs _ refl,
)
