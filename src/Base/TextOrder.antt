-- ===== src/Base/TextOrder.antt =====
-- The order of texts, by the codes of their characters: it is total.
use Prim.Native.Nat.{ℕ, Ordering, compare as compare_ℕ}
use Prim.Native.Char.{Char, code}
use Prim.Native.String.{String, compare, then as seq}
use Prim.Native.String.compare
use mathlib.Core.Path.{◌≡◌, refl, sym, ◌∙◌, ap, subst}
use mathlib.Core.Bool.{Bool, true, false}
use text.Mathlib.TextEquality.{path_by_compare}
use zcastor_agent.Base.Tests.{ltb, if◌then◌else◌}
use native.Mathlib.Omega.{arith}

-- Not after, in the order of texts.
abbrev pub text_leb : String → String → Bool
text_leb s t = elim (compare s t) [ Ordering.gt ↦ false | _ ↦ true ]

abbrev flip : Ordering → Ordering
flip Ordering.lt = Ordering.gt
flip Ordering.eq = Ordering.eq
flip Ordering.gt = Ordering.lt

flip-compare_ℕ : (m n : ℕ) → compare_ℕ n m ≡ flip (compare_ℕ m n)
flip-compare_ℕ m n = ground arith

flip-then : (o r : Ordering) → seq (flip o) (flip r) ≡ flip (seq o r)
flip-then Ordering.lt r = refl
flip-then Ordering.eq r = refl
flip-then Ordering.gt r = refl

flip-compare : (s t : String) → compare t s ≡ flip (compare s t)
flip-compare String.[] String.[] = rw compare.nil-nil refl
flip-compare String.[] (String.◌∷◌ d t) =
    compare.cons-nil d t ∙ ap flip (sym (compare.nil-cons d t))
flip-compare (String.◌∷◌ c s) String.[] =
    compare.nil-cons c s ∙ ap flip (sym (compare.cons-nil c s))
flip-compare (String.◌∷◌ c s) (String.◌∷◌ d t) =
    compare.cons-cons d c t s
    ∙ rw (flip-compare_ℕ (code c) (code d), flip-compare s t)
        (flip-then (compare_ℕ (code c) (code d)) (compare s t))
    ∙ ap flip (sym (compare.cons-cons c d s t))

pub text_leb_total : (s t : String) → text_leb s t ≡ false → text_leb t s ≡ true
text_leb_total s t h =
    subst (λ o. elim o [ Ordering.gt ↦ false | _ ↦ true ] ≡ true) (sym (flip-compare s t))
      (not_after (compare s t) h)
  where
    not_after :
        (o : Ordering)
        → elim o [ Ordering.gt ↦ false | _ ↦ true ] ≡ false
        → elim (flip o) [ Ordering.gt ↦ false | _ ↦ true ] ≡ true
    not_after Ordering.lt e = cc
    not_after Ordering.eq e = refl
    not_after Ordering.gt e = refl

-- The order of two texts that are not empty: by the first characters, then by the rests.
abbrev lex : ℕ → ℕ → Bool → Bool
lex a b rest = if ltb a b then true else if ltb b a then false else rest

lex-then :
    (a b : ℕ) (o : Ordering)
    → elim (seq (compare_ℕ a b) o) as (λ _. Bool) [ Ordering.gt ↦ false | _ ↦ true ]
      ≡ lex a b (elim o [ Ordering.gt ↦ false | _ ↦ true ])
lex-then a b o = ground arith

leb_cons :
    (c d : Char) (s t : String)
    → text_leb (String.◌∷◌ c s) (String.◌∷◌ d t) ≡ lex (code c) (code d) (text_leb s t)
leb_cons c d s t =
    ap (λ o. elim o [ Ordering.gt ↦ false | _ ↦ true ]) (compare.cons-cons c d s t)
    ∙ lex-then (code c) (code d) (compare s t)

lex_trans :
    (a b c : ℕ) (p q r : Bool)
    → (p ≡ true → q ≡ true → r ≡ true)
    → lex a b p ≡ true
    → lex b c q ≡ true
    → lex a c r ≡ true
lex_trans a b c true true r f h k = ground (arith, f refl refl)
lex_trans a b c true false r f h k = ground arith
lex_trans a b c false q r f h k = ground arith

nil_leb : (t : String) → text_leb "" t ≡ true
nil_leb String.[] = ap (λ o. elim o [ Ordering.gt ↦ false | _ ↦ true ]) compare.nil-nil
nil_leb (String.◌∷◌ d t) =
    ap (λ o. elim o [ Ordering.gt ↦ false | _ ↦ true ]) (compare.nil-cons d t)

cons_nil : (c : Char) (s : String) → text_leb (String.◌∷◌ c s) "" ≡ false
cons_nil c s = ap (λ o. elim o [ Ordering.gt ↦ false | _ ↦ true ]) (compare.cons-nil c s)

absurd_bool : {P : Type 0} → false ≡ true → P
absurd_bool h = cc

after_nil : {P : Type 0} (c : Char) (s : String) → (text_leb (String.◌∷◌ c s) "" ≡ true) → P
after_nil c s h = absurd_bool (sym (cons_nil c s) ∙ h)

pub text_leb_trans :
    (s t u : String) → text_leb s t ≡ true → text_leb t u ≡ true → text_leb s u ≡ true
text_leb_trans String.[] t String.[] h k = nil_leb ""
text_leb_trans String.[] t (String.◌∷◌ e u) h k = nil_leb (String.◌∷◌ e u)
text_leb_trans (String.◌∷◌ c s) String.[] u h k = after_nil c s h
text_leb_trans (String.◌∷◌ c s) (String.◌∷◌ d t) String.[] h k = after_nil d t k
text_leb_trans (String.◌∷◌ c s) (String.◌∷◌ d t) (String.◌∷◌ e u) h k =
    leb_cons c e s u
    ∙ lex_trans (code c) (code d) (code e) (text_leb s t) (text_leb t u) (text_leb s u)
        (text_leb_trans s t u) (sym (leb_cons c d s t) ∙ h) (sym (leb_cons d e t u) ∙ k)

pub text_leb_antisym : (s t : String) → text_leb s t ≡ true → text_leb t s ≡ true → s ≡ t
text_leb_antisym s t h k = path_by_compare s t (
    both (compare s t) h
      (subst (λ o. elim o [ Ordering.gt ↦ false | _ ↦ true ] ≡ true) (flip-compare s t) k))
  where
    both :
        (o : Ordering)
        → elim o [ Ordering.gt ↦ false | _ ↦ true ] ≡ true
        → elim (flip o) [ Ordering.gt ↦ false | _ ↦ true ] ≡ true
        → o ≡ Ordering.eq
    both Ordering.lt p q = cc
    both Ordering.eq p q = refl
    both Ordering.gt p q = cc
