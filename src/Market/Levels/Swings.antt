-- ===== src/Market/Levels/Swings.antt =====
-- zcastor/market/levels.py: what `_find_swings` finds.
use mathlib.Core.Option.{some-injective}
use mathlib.Core.Path.{subst}
use zcastor_agent.Base.{ℕ, zero, suc, ◌+◌, ◌-◌, ◌*◌, ◌≤◌, true, ◌≡◌, refl, sym, ap, ◌∙◌}
use zcastor_agent.Base.{
  Option, none, some, List, [], ◌∷◌, ◌++◌, map, length, take, drop, All, arith,
}
use zcastor_agent.Base.{inl, inr, Bool-cases, ltb}
use zcastor_agent.Base.Int.{ℤ, ◌≤ℤ◌}
use zcastor_agent.Market.Levels.{Hour, larger, smaller, max_from, min_from, max_list, min_list}
use zcastor_agent.Market.Levels.{same_price, extreme, swings_from, find_swings}

abbrev pub IsBelow : ℤ → ℤ → Type 0
IsBelow m x = x ≤ℤ m

abbrev pub IsAbove : ℤ → ℤ → Type 0
IsAbove m x = m ≤ℤ x

pub max_from-All : (m : ℤ) (xs : List ℤ) → (m ≤ℤ max_from m xs) × All (IsBelow (max_from m xs)) xs
max_from-All m [] = (ground arith, tt)
max_from-All m (x ∷ xs) =
    let rest = max_from-All (larger m x) xs in
    (ground (arith, rest.0), (ground (arith, rest.0), rest.1))

pub min_from-All : (m : ℤ) (xs : List ℤ) → (min_from m xs ≤ℤ m) × All (IsAbove (min_from m xs)) xs
min_from-All m [] = (ground arith, tt)
min_from-All m (x ∷ xs) =
    let rest = min_from-All (smaller m x) xs in
    (ground (arith, rest.0), (ground (arith, rest.0), rest.1))

-- The function finds a value that holds against the whole list.
abbrev pub IsBest : (ℤ → ℤ → Type 0) → (List ℤ → Option ℤ) → Type 0
IsBest R best = (xs : List ℤ) (m : ℤ) → best xs ≡ some m → All (R m) xs

pub max_list-IsBest : IsBest IsBelow max_list
max_list-IsBest [] m h = cc
max_list-IsBest (x ∷ xs) m h =
    subst (λ t. All (IsBelow t) (x ∷ xs)) (some-injective (max_from x xs) m h) (max_from-All x xs)

pub min_list-IsBest : IsBest IsAbove min_list
min_list-IsBest [] m h = cc
min_list-IsBest (x ∷ xs) m h =
    subst (λ t. All (IsAbove t) (x ∷ xs)) (some-injective (min_from x xs) m h) (min_from-All x xs)

pub eq_of_same : (m x : ℤ) → same_price x m ≡ true → m ≡ x
eq_of_same m x h = ground arith

-- A bar with k bars on either side, against each of which it holds.
abbrev pub IsSwing : (ℤ → ℤ → Type 0) → ℕ → List ℤ → ℤ → Type 0
IsSwing R k xs x =
    (earlier : List ℤ) × (left : List ℤ) × (right : List ℤ) × (later : List ℤ) × (xs
      ≡ earlier ++ (left ++ (x ∷ (right ++ later))))
    × (length left ≡ k)
    × (length right ≡ k)
    × All (R x) left
    × All (R x) right

take-drop : (n : ℕ) (xs : List ℤ) → xs ≡ take n xs ++ drop n xs
take-drop zero xs = refl
take-drop (suc n) [] = refl
take-drop (suc n) (x ∷ xs) = ap (λ ys. x ∷ ys) (take-drop n xs)

length-take_of : (n : ℕ) (xs : List ℤ) → n ≤ length xs → length (take n xs) ≡ n
length-take_of zero xs h = refl
length-take_of (suc n) [] h = ground arith
length-take_of (suc n) (x ∷ xs) h = ground (arith, length-take_of n xs (ground arith))

length-drop_of : (n : ℕ) (xs : List ℤ) → length (drop n xs) ≡ length xs - n
length-drop_of zero xs = omega arith
length-drop_of (suc n) [] = omega arith
length-drop_of (suc n) (x ∷ xs) = omega (arith, length-drop_of n xs)

-- The window around the head of the list from k on.
take-window :
    (k n w : ℕ) (xs : List ℤ) (x : ℤ) (ys : List ℤ)
    → w ≡ k + suc n
    → drop k xs ≡ x ∷ ys
    → take w xs ≡ take k xs ++ x ∷ take n ys
take-window zero n zero xs x ys e h = ground arith
take-window zero n (suc w) xs x ys e h = rw h (ap (λ t. x ∷ take t ys) (omega (arith, e)))
take-window (suc k) n zero xs x ys e h = ground arith
take-window (suc k) n (suc w) [] x ys e h = cc
take-window (suc k) n (suc w) (z ∷ xs) x ys e h =
    ap (λ ts. z ∷ ts) (take-window k n w xs x ys (omega (arith, e)) h)

-- The list around that head.
around :
    (k : ℕ) (xs : List ℤ) (x : ℤ) (ys : List ℤ)
    → drop k xs ≡ x ∷ ys
    → xs ≡ take k xs ++ (x ∷ (take k ys ++ drop k ys))
around k xs x ys d =
    subst (λ t. xs ≡ take k xs ++ (x ∷ t)) (take-drop k ys)
      (subst (λ t. xs ≡ take k xs ++ t) d (take-drop k xs))

All-append_both : (P : ℤ → Type 0) (xs ys : List ℤ) → All P (xs ++ ys) → All P xs × All P ys
All-append_both P [] ys h = (tt, h)
All-append_both P (x ∷ xs) ys h = let rest = All-append_both P xs ys h.1 in ((h.0, rest.0), rest.1)

module _ (R : ℤ → ℤ → Type 0) (best : List ℤ → Option ℤ) (is_best : IsBest R best) (k : ℕ) where
  -- The bar that its window singles out.
  window-IsSwing :
      (xs : List ℤ) (x : ℤ) (ys : List ℤ)
      → drop k xs ≡ x ∷ ys
      → k ≤ length ys
      → best (take (2 * k + 1) xs) ≡ some x
      → IsSwing R k xs x
  window-IsSwing xs x ys d h m =
      let n = 2 * k + 1 in
      let window = take-window k k n xs x ys (omega arith) d in
      let all =
        All-append_both (R x) (take k xs) (x ∷ take k ys)
          (subst (All (R x)) window (is_best (take n xs) x m)) in
      let long = ap length d in
      (
        [],
        take k xs,
        take k ys,
        drop k ys,
        around k xs x ys d,
        length-take_of k xs (omega (arith, long, length-drop_of k xs)),
        length-take_of k ys h,
        all.0,
        all.1.1,
      )

  IsSwing-drop : (xs : List ℤ) (x : ℤ) → IsSwing R k (drop 1 xs) x → IsSwing R k xs x
  IsSwing-drop [] x h = h
  IsSwing-drop (z ∷ xs) x (e, l, r, t, same, a, b, c, d) =
      (z ∷ e, l, r, t, ap (λ s. z ∷ s) same, a, b, c, d)

  All-drop : (xs found : List ℤ) → All (IsSwing R k (drop 1 xs)) found → All (IsSwing R k xs) found
  All-drop xs [] h = tt
  All-drop xs (x ∷ found) h = (IsSwing-drop xs x h.0, All-drop xs found h.1)

  All-extreme :
      (o : Option ℤ) (ds xs rest : List ℤ)
      → o ≡ best (take (2 * k + 1) xs)
      → ds ≡ drop k xs
      → 2 * k + 1 ≤ length xs
      → All (IsSwing R k xs) rest
      → All (IsSwing R k xs) (extreme o ds rest)
  All-extreme none ds xs rest o d h all = all
  All-extreme (some m) [] xs rest o d h all = all
  All-extreme (some m) (x ∷ ds) xs rest o d h all = elim (Bool-cases (same_price x m)) [
    | inl same ↦ rw same (
      window-IsSwing xs x ds (sym d) (omega (arith, ap length d, length-drop_of k xs, h))
          (sym o ∙ ap some (eq_of_same m x same)),
      all,
    )
    | inr other ↦ rw other all
  ]

  swings_from-All :
      (n : ℕ) (xs : List ℤ) → 2 * k + n ≤ length xs → All (IsSwing R k xs) (swings_from best k n xs)
  swings_from-All zero xs h = tt
  swings_from-All (suc n) xs h =
      All-extreme (best (take (2 * k + 1) xs)) (drop k xs) xs (swings_from best k n (drop 1 xs))
        refl refl (omega (arith, h))
        (All-drop xs (swings_from best k n (drop 1 xs))
          (swings_from-All n (drop 1 xs) (omega (arith, h, length-drop_of 1 xs))))

length-map_of : (f : Hour → ℤ) (xs : List Hour) → length (map f xs) ≡ length xs
length-map_of f [] = refl
length-map_of f (x ∷ xs) = ap suc (length-map_of f xs)

-- Each high that is found stands at or above k hours on either side, each low at or below them.
pub find_swings-All :
    (k : ℕ) (hourly : List Hour)
    → All (IsSwing IsBelow k (map (λ b. b.h) hourly)) (find_swings k hourly).0
      × All (IsSwing IsAbove k (map (λ b. b.l) hourly)) (find_swings k hourly).1
unfolding find_swings
find_swings-All k hourly = elim (Bool-cases (ltb (length hourly) (2 * k + 1))) [
  | inl few ↦ rw few (tt, tt)
  | inr many ↦ rw many (
    swings_from-All IsBelow max_list max_list-IsBest k (length hourly - 2 * k) _
        (ground (arith, length-map_of (λ b. b.h) hourly, many)),
    swings_from-All IsAbove min_list min_list-IsBest k (length hourly - 2 * k) _
        (ground (arith, length-map_of (λ b. b.l) hourly, many)),
  )
]
