-- ===== src/Record/Canonical/Ordered.antt =====
-- zcastor/record/canonical.py: the order of a dict's keys does not matter.
use Prim.Native.String.{◌++◌ as append}
use zcastor_agent.Base.{ℕ, String, true, false, List, ◌∷◌, ◌≡◌, ◌≢◌, refl, sym, ap, ◌∙◌, Option}
use zcastor_agent.Base.{◌+◌, is_some, none, some, inl, inr, Bool-cases}
use zcastor_agent.Base.Int.{ℤ}
use zcastor_agent.Base.Sort.{insert_by, sort_by, insert_by-swap}
use zcastor_agent.Base.TextOrder.{text_leb, text_leb_total, text_leb_trans, text_leb_antisym}
use zcastor_agent.Record.Canonical.{
  Json, Items, Members, Key, name, member, no_members, object, dumps,
}
use zcastor_agent.Record.Canonical.{member_texts, key_text, by_key, canonical_bytes, refused_at}
use zcastor_agent.Record.Canonical.{
  checksum, text_unless, summed, or_else, refused_items, refused_members, null, bool, int, float,
  finite, non_finite, string, other, joined, pair_text, item_texts, array, item, no_items,
}

abbrev Pair : Type 0
Pair = String × String

-- One of two texts that differ stands first.
one_first : (s t : String) → s ≢ t → text_leb s t ≡ true → text_leb t s ≡ false
one_first s t h p = elim (Bool-cases (text_leb t s)) [
  | inl q ↦ absurd (h (text_leb_antisym s t p q))
  | inr f ↦ f
]

-- Values that differ in the order of keys at most, at any depth.
mutual
  pub data Alike : Json → Json → Type 0 where
    same : (v : Json) → Alike v v
    objects : {ms ns : Members} → AlikeMembers ms ns → Alike (object ms) (object ns)
    arrays : {xs ys : Items} → AlikeItems xs ys → Alike (array xs) (array ys)

  pub data AlikeItems : Items → Items → Type 0 where
    no_more : AlikeItems no_items no_items
    items :
        {v w : Json} {xs ys : Items}
        → Alike v w
        → AlikeItems xs ys
        → AlikeItems (item v xs) (item w ys)

  pub data AlikeMembers : Members → Members → Type 0 where
    kept : (ms : Members) → AlikeMembers ms ms
    under :
        (k : Key) {v w : Json} {ms ns : Members}
        → Alike v w
        → AlikeMembers ms ns
        → AlikeMembers (member k v ms) (member k w ns)
    swapped :
        (j k : String) (v w : Json) (ms : Members)
        → j ≢ k
        → AlikeMembers
            (member (name j) v (member (name k) w ms))
            (member (name k) w (member (name j) v ms))
    then_also : {ls ms ns : Members} → AlikeMembers ls ms → AlikeMembers ms ns → AlikeMembers ls ns

sorted_swap :
    (j k a b : String) (ps : List Pair)
    → j ≢ k
    → sort_by by_key ((j, a) ∷ (k, b) ∷ ps) ≡ sort_by by_key ((k, b) ∷ (j, a) ∷ ps)
sorted_swap j k a b ps h = elim (Bool-cases (text_leb j k)) [
  | inl first ↦
      insert_by-swap by_key (λ x y z. text_leb_trans x.0 y.0 z.0) (j, a) (k, b) (sort_by by_key ps)
        first (one_first j k h first)
  | inr second ↦ sym (
      insert_by-swap by_key (λ x y z. text_leb_trans x.0 y.0 z.0) (k, b) (j, a) (sort_by by_key ps)
        (text_leb_total j k second) second)
]

module _ (quote : String → String) (digits : ℤ → String) where
  mutual
    unfolding dumps

    dumps-Alike : {v w : Json} → Alike v w → dumps quote digits v ≡ dumps quote digits w
    dumps-Alike (same v) = refl
    dumps-Alike (objects h) =
        ap (λ ps. append "{" (append (joined (pair_text quote digits ps)) "}")) (sorted_members h)
    dumps-Alike (arrays h) = ap (λ ts. append "[" (append (joined ts) "]")) (item_texts-Alike h)

    item_texts-Alike :
        {xs ys : Items} → AlikeItems xs ys → item_texts quote digits xs ≡ item_texts quote digits ys
    item_texts-Alike no_more = refl
    item_texts-Alike (items h t) = λ i. dumps-Alike h i ∷ item_texts-Alike t i

    sorted_members :
        {ms ns : Members}
        → AlikeMembers ms ns
        → sort_by by_key (member_texts quote digits ms)
          ≡ sort_by by_key (member_texts quote digits ns)
    sorted_members (kept ms) = refl
    sorted_members (under k h t) =
        λ i. insert_by by_key (key_text k, dumps-Alike h i) (sorted_members t i)
    sorted_members (swapped j k v w ms h) =
        sorted_swap j k (dumps quote digits v) (dumps quote digits w) (member_texts quote digits ms)
          h
    sorted_members (then_also h t) = sorted_members h ∙ sorted_members t

both_refused :
    (a a' b b' : Option String)
    → is_some a ≡ is_some a'
    → is_some b ≡ is_some b'
    → is_some (or_else a b) ≡ is_some (or_else a' b')
both_refused none none b b' h k = k
both_refused none (some x) b b' h k = cc
both_refused (some x) none b b' h k = cc
both_refused (some x) (some y) b b' h k = refl

either_first :
    (a b c : Option String) → is_some (or_else a (or_else b c)) ≡ is_some (or_else b (or_else a c))
either_first none none c = refl
either_first none (some b) c = refl
either_first (some a) none c = refl
either_first (some a) (some b) c = refl

-- Whether a value is refused does not depend on where it stands.
mutual
  unfolding refused_at

  refused_anywhere : (v : Json) (p q : String) → is_some (refused_at v p) ≡ is_some (refused_at v q)
  refused_anywhere null p q = refl
  refused_anywhere (bool b) p q = refl
  refused_anywhere (int n) p q = refl
  refused_anywhere (float (finite r)) p q = refl
  refused_anywhere (float non_finite) p q = refl
  refused_anywhere (string s) p q = refl
  refused_anywhere (array xs) p q = items_anywhere xs 0 0 p q
  refused_anywhere (object ms) p q = members_anywhere ms p q

  items_anywhere :
      (xs : Items) (i j : ℕ) (p q : String)
      → is_some (refused_items xs i p) ≡ is_some (refused_items xs j q)
  items_anywhere no_items i j p q = refl
  items_anywhere (item v xs) i j p q =
      both_refused _ _ _ _ (refused_anywhere v _ _) (items_anywhere xs (i + 1) (j + 1) p q)

  members_anywhere :
      (ms : Members) (p q : String)
      → is_some (refused_members ms p) ≡ is_some (refused_members ms q)
  members_anywhere no_members p q = refl
  members_anywhere (member other v ms) p q = refl
  members_anywhere (member (name k) v ms) p q =
      both_refused _ _ _ _ (refused_anywhere v _ _) (members_anywhere ms p q)

mutual
  unfolding refused_at

  refused-Alike :
      {v w : Json} (p : String) → Alike v w → is_some (refused_at v p) ≡ is_some (refused_at w p)
  refused-Alike p (same v) = refl
  refused-Alike p (objects h) = members-Alike p h
  refused-Alike p (arrays h) = items-Alike 0 p h

  items-Alike :
      {xs ys : Items} (i : ℕ) (p : String)
      → AlikeItems xs ys
      → is_some (refused_items xs i p) ≡ is_some (refused_items ys i p)
  items-Alike i p no_more = refl
  items-Alike i p (items h t) = both_refused _ _ _ _ (refused-Alike _ h) (items-Alike (i + 1) p t)

  members-Alike :
      {ms ns : Members} (p : String)
      → AlikeMembers ms ns
      → is_some (refused_members ms p) ≡ is_some (refused_members ns p)
  members-Alike p (kept ms) = refl
  members-Alike p (under other h t) = refl
  members-Alike p (under (name k) h t) =
      both_refused _ _ _ _ (refused-Alike _ h) (members-Alike p t)
  members-Alike p (swapped j k v w ms h) =
      either_first (refused_at v _) (refused_at w _) (refused_members ms p)
  members-Alike p (then_also h t) = members-Alike p h ∙ members-Alike p t

text_unless_same :
    (a b : Option String) (x y : String)
    → is_some a ≡ is_some b
    → x ≡ y
    → text_unless a x ≡ text_unless b y
text_unless_same none none x y h e = ap some e
text_unless_same none (some b) x y h e = cc
text_unless_same (some a) none x y h e = cc
text_unless_same (some a) (some b) x y h e = refl

-- The canonical texts of values that differ in the order of keys at most are the same, and one is
-- refused where the other is; so are their checksums.
pub canonical_bytes-Alike :
    (quote : String → String) (digits : ℤ → String) (sha256 : String → String) (v w : Json)
    → Alike v w
    → (canonical_bytes quote digits v ≡ canonical_bytes quote digits w)
      × (checksum quote digits sha256 v ≡ checksum quote digits sha256 w)
unfolding canonical_bytes checksum
canonical_bytes-Alike quote digits sha256 v w h =
    let texts =
      text_unless_same (refused_at v "$") (refused_at w "$") _ _ (refused-Alike "$" h)
        (ap (λ t. append t "\n") (dumps-Alike quote digits h)) in
    (texts, ap (summed sha256) texts)
