-- ===== src/Record/Disclosure/Verified.antt =====
-- zcastor/record/disclosure.py: what a recipient can check.
use mathlib.Core.List.{append-nil, append_assoc, map-append}
use zcastor_agent.Base.{
  String, Bool, not, Option, none, some, is_some, List, [], ◌∷◌, ◌++◌, map, keep_if, All,
  All-append, if◌then◌else◌,
}
use zcastor_agent.Base.{◌≡◌, refl, sym, ap, ◌∙◌, String-discrete}
use zcastor_agent.Base.Dict.{Dict, lookup, insert, lookup-insert_self, lookup-insert_ne}
use zcastor_agent.Record.Disclosure.{Disclosure, Released, Gathered, name_of, gather, gather_one}
use zcastor_agent.Record.Disclosure.{gathered}

-- No two documents of the same name differ, as the names of a publisher have it, which carry a hash.
abbrev pub AreNamed : Dict String → Type 0
AreNamed root =
    (p q c e : String)
    → name_of p ≡ name_of q
    → lookup p root ≡ some c
    → lookup q root ≡ some e
    → c ≡ e

-- Whether the path names a published document.
abbrev pub is_published : Disclosure → String → Bool
is_published d p = is_some (lookup p d.root)

abbrev pub paths_of : List Released → List String
paths_of = map (λ r. r.path)

module _ (sha : String → String) where
  -- The bundle holds the published document, byte for byte, and its hash is the one that is claimed.
  abbrev pub IsCopy : Dict String → Dict String → Released → Type 0
  IsCopy root records r =
      (c : String) × (lookup r.path root ≡ some c)
      × (lookup r.file records ≡ some c)
      × (r.checksum ≡ sha c)
      × (r.file ≡ name_of r.path)

  IsCopy-insert :
      (root records : Dict String) (p c : String) (r : Released)
      → AreNamed root
      → lookup p root ≡ some c
      → IsCopy root records r
      → IsCopy root (insert (name_of p) c records) r
  IsCopy-insert root records p c r named here (e, there, held, hash, file) =
      elim (String-discrete r.file (name_of p)) [
        | yes same ↦ (
          e,
          there,
          ap (λ k. lookup k (insert (name_of p) c records)) same
              ∙ lookup-insert_self (name_of p) c records
              ∙ ap some (named p r.path c e (sym same ∙ file) here there),
          hash,
          file,
        )
        | no other ↦
            (e, there, lookup-insert_ne (name_of p) r.file c records other ∙ held, hash, file)
      ]

  All-insert :
      (root records : Dict String) (p c : String) (rs : List Released)
      → AreNamed root
      → lookup p root ≡ some c
      → All (IsCopy root records) rs
      → All (IsCopy root (insert (name_of p) c records)) rs
  All-insert root records p c [] named here all = tt
  All-insert root records p c (r ∷ rs) named here all = (
    IsCopy-insert root records p c r named here all.0,
    All-insert root records p c rs named here all.1,
  )

  gather_one-All :
      (d : Disclosure) (p : String) (o : Option String) (g : Gathered)
      → AreNamed d.root
      → lookup p d.root ≡ o
      → All (IsCopy d.root g.records) g.included
      → All (IsCopy d.root (gather_one sha d p o g).records) (gather_one sha d p o g).included
  gather_one-All d p none g named here all = all
  gather_one-All d p (some c) g named here all =
      All-append (IsCopy d.root (insert (name_of p) c g.records)) g.included _
        (All-insert d.root g.records p c g.included named here all)
        ((c, here, lookup-insert_self (name_of p) c g.records, refl, refl), tt)

  gather-All :
      (d : Disclosure) (ps : List String) (g : Gathered)
      → AreNamed d.root
      → All (IsCopy d.root g.records) g.included
      → All (IsCopy d.root (gather sha d ps g).records) (gather sha d ps g).included
  unfolding gather
  gather-All d [] g named all = all
  gather-All d (p ∷ ps) g named all =
      gather-All d ps _ named (gather_one-All d p (lookup p d.root) g named refl all)

  gather_one-sorted :
      (d : Disclosure) (p : String) (o : Option String) (g : Gathered) (found lost : List String)
      → (paths_of (gather_one sha d p o g).included ++ found
          ≡ paths_of g.included ++ (if is_some o then p ∷ found else found))
        × ((gather_one sha d p o g).missing ++ lost
            ≡ g.missing ++ (if not (is_some o) then p ∷ lost else lost))
  gather_one-sorted d p none g found lost = (refl, append_assoc g.missing (p ∷ []) lost)
  gather_one-sorted d p (some c) g found lost = (
    ap (λ xs. xs ++ found) (map-append (λ (r : Released). r.path) g.included _)
        ∙ append_assoc (paths_of g.included) (p ∷ []) found,
    refl,
  )

  gather-sorted :
      (d : Disclosure) (ps : List String) (g : Gathered)
      → (paths_of (gather sha d ps g).included
          ≡ paths_of g.included ++ keep_if (λ p. is_published d p) ps)
        × ((gather sha d ps g).missing ≡ g.missing ++ keep_if (λ p. not (is_published d p)) ps)
  unfolding gather
  gather-sorted d [] g = (sym (append-nil (paths_of g.included)), sym (append-nil g.missing))
  gather-sorted d (p ∷ ps) g =
      let (found, lost) = gather-sorted d ps (gather_one sha d p (lookup p d.root) g) in
      let here =
        gather_one-sorted d p (lookup p d.root) g (keep_if (λ q. is_published d q) ps)
          (keep_if (λ q. not (is_published d q)) ps) in
      (found ∙ here.0, lost ∙ here.1)

  -- Where documents of the same name are the same, each record of a bundle has its document in the
  -- bundle, as published and with the hash that the manifest claims; the paths of the records are
  -- those that were asked for and are published, in order, and those that are missing are the others
  -- that were asked for, in order.
  pub gathered-All :
      (d : Disclosure) (ps : List String)
      → AreNamed d.root
      → let g = gathered sha d ps in
        All (IsCopy d.root g.records) g.included
        × (paths_of g.included ≡ keep_if (λ p. is_published d p) ps)
        × (g.missing ≡ keep_if (λ p. not (is_published d p)) ps)
  unfolding gathered
  gathered-All d ps named =
      let (found, lost) =
        gather-sorted d ps (record { records = []; included = []; missing = [] }) in
      (gather-All d ps _ named tt, found, lost)
