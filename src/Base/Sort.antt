-- ===== src/Base/Sort.antt =====
-- Python's `sorted`, by insertion: elements that compare alike keep their order.
use mathlib.Core.Path.{◌≡◌, refl, ap, subst}
use mathlib.Core.Bool.{Bool, true, false}
use mathlib.Core.Logic.{inl, inr}
use mathlib.Core.List.{List, [], ◌∷◌}
use zcastor_agent.Base.Tests.{if◌then◌else◌, Bool-cases}

module _ {ℓ} {A : Type ℓ} (before : A → A → Bool) where
  -- `x` in front of the first element that it may stand before.
  abbrev pub insert_by : A → List A → List A
  insert_by x [] = x ∷ []
  insert_by x (y ∷ ys) = let rest = insert_by x ys in if before x y then x ∷ y ∷ ys else y ∷ rest

  abbrev pub sort_by : List A → List A
  sort_by [] = []
  sort_by (x ∷ xs) = insert_by x (sort_by xs)

  -- Each element may stand before the next one.
  abbrev pub Sorted : List A → Type 0
  Sorted [] = Unit
  Sorted (x ∷ []) = Unit
  Sorted (x ∷ y ∷ ys) = (before x y ≡ true) × Sorted (y ∷ ys)

  module _ (total : (x y : A) → before x y ≡ false → before y x ≡ true) where
    insert_by-Sorted_behind :
        (x y : A) (ys : List A)
        → before y x ≡ true
        → Sorted (y ∷ ys)
        → Sorted (insert_by x ys)
        → Sorted (y ∷ insert_by x ys)
    insert_by-Sorted_behind x y [] h s r = (h, tt)
    insert_by-Sorted_behind x y (z ∷ zs) h s r = elim (Bool-cases (before x z)) [
      | inl first ↦ rw first (h, (first, s.1))
      | inr later ↦
          rw later (s.0, subst (λ b. Sorted (if b then x ∷ z ∷ zs else z ∷ insert_by x zs)) later r)
    ]

    pub Sorted-insert_by : (x : A) (ys : List A) → Sorted ys → Sorted (insert_by x ys)
    Sorted-insert_by x [] s = tt
    Sorted-insert_by x (y ∷ ys) s = elim (Bool-cases (before x y)) [
      | inl first ↦ rw first (first, s)
      | inr later ↦
          rw later
            (insert_by-Sorted_behind x y ys (total x y later) s (Sorted-insert_by x ys (tail ys s)))
    ]
      where
        tail : (zs : List A) → Sorted (y ∷ zs) → Sorted zs
        tail [] t = tt
        tail (z ∷ zs) t = t.1

    pub Sorted-sort_by : (xs : List A) → Sorted (sort_by xs)
    Sorted-sort_by [] = tt
    Sorted-sort_by (x ∷ xs) = Sorted-insert_by x (sort_by xs) (Sorted-sort_by xs)

  module _ (trans : (x y z : A) → before x y ≡ true → before y z ≡ true → before x z ≡ true) where
    -- Insertions of two elements, the first of which stands before the second, change places.
    pub insert_by-swap :
        (a b : A) (xs : List A)
        → before a b ≡ true
        → before b a ≡ false
        → insert_by a (insert_by b xs) ≡ insert_by b (insert_by a xs)
    insert_by-swap a b [] p q = rw p (rw q refl)
    insert_by-swap a b (x ∷ xs) p q = elim (Bool-cases (before b x)) [
      | inl bx ↦ rw bx (rw p (rw (trans a b x p bx) (rw q (rw bx refl))))
      | inr bx ↦ elim (Bool-cases (before a x)) [
        | inl ax ↦ rw bx (rw ax (rw q (rw bx refl)))
        | inr ax ↦ rw bx (rw ax (rw bx (ap (λ ys. x ∷ ys) (insert_by-swap a b xs p q))))
      ]
    ]
