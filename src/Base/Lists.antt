-- ===== src/Base/Lists.antt =====
-- Lists measured by native numbers, and predicates on lists by recursion.
use Prim.Native.Nat.{ℕ, zero, suc, ◌+◌, ◌-◌, ◌≤◌}
use mathlib.Core.Path.{◌≡◌, refl, subst}
use mathlib.Core.Bool.{Bool, true, false, ◌||◌}
use mathlib.Core.Option.{Option, none, some}
use mathlib.Core.List.{List, [], ◌∷◌, ◌++◌}
use native.Mathlib.Omega.{arith}
use zcastor_agent.Base.Tests.{if◌then◌else◌, Bool-cases}
use mathlib.Core.Logic.{inl, inr}

module _ {ℓ} {A : Type ℓ} where
  abbrev pub length : List A → ℕ
  length [] = 0
  length (x ∷ xs) = suc (length xs)

  -- `xs[:n]`
  abbrev pub take : ℕ → List A → List A
  take zero xs = []
  take (suc n) [] = []
  take (suc n) (x ∷ xs) = x ∷ take n xs

  abbrev pub drop : ℕ → List A → List A
  drop zero xs = xs
  drop (suc n) [] = []
  drop (suc n) (x ∷ xs) = drop n xs

  -- `xs[-n:]`
  abbrev pub take_last : ℕ → List A → List A
  take_last n xs = drop (length xs - n) xs

  abbrev pub All {κ} : (A → Type κ) → List A → Type κ
  All P [] = Unit
  All P (x ∷ xs) = P x × All P xs

  -- `any(p(x) for x in xs)`
  abbrev pub any : (A → Bool) → List A → Bool
  any p [] = false
  any p (x ∷ xs) = p x || any p xs

  -- `[x for x in xs if p(x)]`
  abbrev pub keep_if : (A → Bool) → List A → List A
  keep_if p [] = []
  keep_if p (x ∷ xs) = let rest = keep_if p xs in if p x then x ∷ rest else rest

  -- `next(x for x in xs if p(x))`, or `none`
  abbrev pub find_first : (A → Bool) → List A → Option A
  find_first p [] = none
  find_first p (x ∷ xs) = let rest = find_first p xs in if p x then some x else rest

module _ {ℓ} {A : Type ℓ} where
  pub length-append : (xs ys : List A) → length (xs ++ ys) ≡ length xs + length ys
  length-append [] ys = omega arith
  length-append (x ∷ xs) ys = omega (arith, length-append xs ys)

  pub length-keep_if : (p : A → Bool) (xs : List A) → length (keep_if p xs) ≤ length xs
  length-keep_if p [] = omega arith
  length-keep_if p (x ∷ xs) = ground (arith, length-keep_if p xs)

  pub All-append {κ} : (P : A → Type κ) (xs ys : List A) → All P xs → All P ys → All P (xs ++ ys)
  All-append P [] ys hx hy = hy
  All-append P (x ∷ xs) ys hx hy = (hx.0, All-append P xs ys hx.1 hy)

  pub All-keep_if {κ} :
      (p : A → Bool) (Q : A → Type κ) (xs : List A)
      → All Q (keep_if p xs)
      → All (λ x. p x ≡ true → Q x) xs
  All-keep_if p Q [] h = tt
  All-keep_if p Q (x ∷ xs) h = elim (Bool-cases (p x)) [
    | inl t ↦
        let h' = subst (λ b. All Q (if b then x ∷ keep_if p xs else keep_if p xs)) t h in
        ((λ yes. h'.0), All-keep_if p Q xs h'.1)
    | inr f ↦
        let h' = subst (λ b. All Q (if b then x ∷ keep_if p xs else keep_if p xs)) f h in
        ((λ yes. cc), All-keep_if p Q xs h')
  ]

  -- Nothing is kept, or something.
  pub keep_if-nil : (p : A → Bool) (xs : List A) → keep_if p xs ≡ [] → any p xs ≡ false
  keep_if-nil p [] h = refl
  keep_if-nil p (x ∷ xs) h = elim (Bool-cases (p x)) [
    | inl t ↦ cc
    | inr f ↦
        rw f
          (keep_if-nil p xs (subst (λ b. (if b then x ∷ keep_if p xs else keep_if p xs) ≡ []) f h))
  ]

  pub keep_if-cons :
      (p : A → Bool) (xs : List A) (c : A) (cs : List A) → keep_if p xs ≡ c ∷ cs → any p xs ≡ true
  keep_if-cons p [] c cs h = cc
  keep_if-cons p (x ∷ xs) c cs h = elim (Bool-cases (p x)) [
    | inl t ↦ rw t refl
    | inr f ↦ rw f (
        keep_if-cons p xs c cs
          (subst (λ b. (if b then x ∷ keep_if p xs else keep_if p xs) ≡ c ∷ cs) f h))
  ]
