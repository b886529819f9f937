-- ===== src/Targets/Floats.antt =====
-- Python's `float` as zcastor/targets/optimizer.py uses it: its operations, and what the bounds rely
-- on. `nan` is left out.
use zcastor_agent.Base.{ℕ, String, Bool, true, not, Option, ◌≡◌, ◌⊎◌, if◌then◌else◌}

-- `decimal k d` is the literal k / 10 ^ d, `of_text` is `float` of a text, and `round_to d` is
-- `round` to d places. Rounding to a float keeps the order, so that a term which is not negative
-- moves a sum no way but up.
pub record Number {ℓ} (A : Type ℓ) : Type ℓ where
  pub decimal : ℕ → ℕ → A
  pub of_text : String → Option A
  pub round_to : ℕ → A → A
  pub add : A → A → A
  pub sub : A → A → A
  pub mul : A → A → A
  pub div : A → A → A
  pub leb : A → A → Bool
  pub leb_total : (a b : A) → (leb a b ≡ true) ⊎ (leb b a ≡ true)
  pub leb_trans : (a b c : A) → leb a b ≡ true → leb b c ≡ true → leb a c ≡ true
  pub leb-add : (a b : A) → leb (decimal 0 0) b ≡ true → leb a (add a b) ≡ true
  pub leb-sub : (a b : A) → leb (decimal 0 0) b ≡ true → leb (sub a b) a ≡ true
  pub leb-mul :
      (a b : A)
      → leb (decimal 0 0) a ≡ true
      → leb (decimal 0 0) b ≡ true
      → leb (decimal 0 0) (mul a b) ≡ true

module _ {ℓ} {A : Type ℓ} ⦃n : Number A⦄ where
  abbrev pub less : A → A → Bool
  less a b = not (n.leb b a)

  -- `max(a, b)` and `min(a, b)`: the first of two equals.
  unfoldable pub max_of : A → A → A
  max_of a b = if n.leb b a then a else b

  unfoldable pub min_of : A → A → A
  min_of a b = if n.leb a b then a else b

  abbrev pub clamp : A → A → A → A
  clamp lo hi x = max_of lo (min_of hi x)
