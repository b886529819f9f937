-- ===== src/Tests/Published.antt =====
-- A published document, its canonical text and its disclosure.
use Prim.Native.String.{◌++◌ as append}
use zcastor_agent.Base.{
  suc, String, String-discrete, ◌≡◌, ◌≢◌, refl, ap, sym, ◌∙◌, true, false, none, some, List, [],
  ◌∷◌, All, arith, str_eq, keep_if, not,
}
use zcastor_agent.Base.Int.{ℤ, pos, negsuc}
use zcastor_agent.Base.Dict.{Dict, lookup}
use zcastor_agent.Base.Text.{show}
use zcastor_agent.Anchor.Index.{take_chars}
use zcastor_agent.Record.Canonical.{
  Json, Members, no_members, member, name, object, int, float, non_finite, canonical_bytes,
  checksum, refused_at, dumps,
}
use zcastor_agent.Record.Canonical.Ordered.{
  objects, AlikeMembers, swapped, under, canonical_bytes-Alike,
}
use zcastor_agent.Record.Disclosure.{Disclosure, gathered, gather}
use zcastor_agent.Record.Disclosure.Verified.{
  AreNamed, IsCopy, gathered-All, is_published, paths_of,
}

abbrev quoted : String → String
quoted s = append "'" (append s "'")

abbrev digits : ℤ → String
digits (pos n) = show n
digits (negsuc n) = append "-" (show (suc n))

abbrev sha : String → String
sha s = take_chars 8 s

abbrev inner : Members
inner = member (name "b") (int (pos 2)) (member (name "a") (int (pos 1)) no_members)

abbrev sorted_inner : Members
sorted_inner = member (name "a") (int (pos 1)) (member (name "b") (int (pos 2)) no_members)

abbrev nested : Json
nested = object (member (name "x") (object inner) no_members)

abbrev sorted_nested : Json
sorted_nested = object (member (name "x") (object sorted_inner) no_members)

text_of_nested : canonical_bytes quoted digits nested ≡ some "{'x':{'a':1,'b':2}}\n"
unfolding canonical_bytes refused_at dumps show
text_of_nested = refl

not_a_number :
    canonical_bytes quoted digits (object (member (name "x") (float non_finite) no_members)) ≡ none
unfolding canonical_bytes refused_at
not_a_number = refl

keys_differ : ◌≢◌ {A = String} "b" "a"
unfolding String-discrete
keys_differ h = apart (ap (str_eq "b") h)
  where
    apart : true ≡ false → ⊥
    apart e = cc

canonical_bytes-Alike_example :
    (canonical_bytes quoted digits nested ≡ canonical_bytes quoted digits sorted_nested)
    × (checksum quoted digits sha nested ≡ checksum quoted digits sha sorted_nested)
canonical_bytes-Alike_example = canonical_bytes-Alike quoted digits sha nested sorted_nested (
    objects (
      under (name "x")
        (objects (swapped "b" "a" (int (pos 2)) (int (pos 1)) no_members keys_differ))
        (AlikeMembers.kept no_members)))

abbrev root : Dict String
root = ("trades/2026-08-29/s1.00ff00ff.json", "{}") ∷ []

abbrev desk : Disclosure
desk = record {
  root = root;
  holder = "afritensor";
  anchor_index = none;
  log = some [];
  environment = "testnet";
  registry = "afritensor-decisions";
}

one_content : (p c : String) → lookup p root ≡ some c → c ≡ "{}"
one_content p c h = ground arith

root-AreNamed : AreNamed root
root-AreNamed p q c e n h k = one_content p c h ∙ sym (one_content q e k)

abbrev asked : List String
asked = "trades/2026-08-29/s1.00ff00ff.json" ∷ "trades/none.json" ∷ []

gathered-All_example :
    let g = gathered sha desk asked in
    All (IsCopy sha root g.records) g.included
    × (paths_of g.included ≡ keep_if (λ p. is_published desk p) asked)
    × (g.missing ≡ keep_if (λ p. not (is_published desk p)) asked)
gathered-All_example = gathered-All sha desk asked root-AreNamed

one_record : (gathered sha desk asked).records ≡ ("s1.00ff00ff.json", "{}") ∷ []
unfolding gathered gather String-discrete
one_record = refl
