-- ===== src/Resolve/Resolver/Ids.antt =====
-- zcastor/resolve/resolver.py: the ids of the records that are pending.
use zcastor_agent.Base.{
  ℕ, ◌+◌, String, str_eq, ◌≡◌, refl, ap, Bool, not, List, [], ◌∷◌, map, keep_if, arith, Bool-cases,
  inl, inr, ltb, if◌then◌else◌,
}
use zcastor_agent.Resolve.Resolver.{Measured, is_pending}

abbrev pub ids : List Measured → List String
ids = map (λ r. r.signal_id)

-- The ids that are not those of the records.
abbrev pub without : List Measured → List String → List String
without rs = keep_if (λ i. not (is_pending i rs))

-- The record was registered too long ago to be measured.
abbrev pub is_old : ℕ → ℕ → Measured → Bool
is_old give_up now r = ltb (r.registered_ts + give_up) now

pub ids-drop :
    (r : Measured) (xs : List Measured)
    → ids (keep_if (λ x. not (str_eq x.signal_id r.signal_id)) xs) ≡ without (r ∷ []) (ids xs)
ids-drop r [] = refl
ids-drop r (x ∷ xs) = ground (arith, ids-drop r xs)

pub ids-retry :
    (r : Measured) (xs : List Measured)
    → ids (
        map
          (λ x.
            if str_eq x.signal_id r.signal_id then record x { attempts = x.attempts + 1 } else x)
          xs)
      ≡ ids xs
ids-retry r [] = refl
ids-retry r (x ∷ xs) = elim (Bool-cases (str_eq x.signal_id r.signal_id)) [
  | inl same ↦ rw same (ap (◌∷◌ x.signal_id) (ids-retry r xs))
  | inr other ↦ rw other (ap (◌∷◌ x.signal_id) (ids-retry r xs))
]

pub without-cons :
    (r : Measured) (rs : List Measured) (is : List String)
    → without rs (without (r ∷ []) is) ≡ without (r ∷ rs) is
without-cons r rs [] = refl
without-cons r rs (i ∷ is) = elim (Bool-cases (str_eq r.signal_id i)) [
  | inl same ↦ rw same (without-cons r rs is)
  | inr other ↦ rw other (elim (Bool-cases (is_pending i rs)) [
    | inl known ↦ rw known (without-cons r rs is)
    | inr free ↦ rw free (ap (◌∷◌ i) (without-cons r rs is))
  ])
]

pub without-nil : (is : List String) → without [] is ≡ is
without-nil [] = refl
without-nil (i ∷ is) = ap (◌∷◌ i) (without-nil is)
