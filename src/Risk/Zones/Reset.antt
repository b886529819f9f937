-- ===== src/Risk/Zones/Reset.antt =====
-- zcastor/risk/zones.py: `reset_zone`, on a confirmed flip.
use Prim.Native.String.{◌++◌ as append}
use text.Mathlib.Text.{starts_with}
use text.Mathlib.TextPositions.{starts_with-append}
use text.Mathlib.TextLemmas.{append_assoc}
use mathlib.Core.Path.{subst}
use zcastor_agent.Base.{
  arith, ◌≢◌, ℕ, ◌*◌, ◌/◌, String, String-discrete, Bool, true, false, not, none,
}
use zcastor_agent.Base.{
  List, [], ◌∷◌, keep_if, length, ◌≡◌, refl, sym, ap, ◌∙◌, Bool-cases, inl, inr,
}
use zcastor_agent.Base.Dict.{Dict, lookup}
use zcastor_agent.Base.Text.{lower, show}
use zcastor_agent.Risk.Zones.{ZoneTracker, ZoneEntry, zone_key, live, normalise_tf}

-- The bucket of a price, and what its keys begin with.
abbrev pub bucket_of : ZoneTracker → ℕ → ℕ
bucket_of z price = price / (z.size * 100) * z.size

abbrev pub zone_prefix : ZoneTracker → ℕ → String
zone_prefix z price = append (show (bucket_of z price)) "_"

-- The number of keys that go, and the tracker without them.
unfoldable pub reset_zone : ℕ → ZoneTracker → ℕ × ZoneTracker
reset_zone price z =
    let prefix = zone_prefix z price in
    (
      length (keep_if (λ e. starts_with e.0 prefix) z.entries),
      record z { entries = keep_if (λ e. not (starts_with e.0 prefix)) z.entries },
    )

apart : {P : Type 0} (b : Bool) → b ≡ false → b ≡ true → P
apart b f t = cc

passed :
    (k j : String) (es : List ZoneEntry) (d : Dict (List ZoneEntry))
    → k ≢ j
    → lookup k ((j, es) ∷ d) ≡ lookup k d
passed k j es d h = ground arith

same_head :
    (k j : String) (es : List ZoneEntry) (d e : Dict (List ZoneEntry))
    → lookup k d ≡ lookup k e
    → lookup k ((j, es) ∷ d) ≡ lookup k ((j, es) ∷ e)
same_head k j es d e h = ground (arith, h)

lookup-keep_if :
    (gone : String → Bool) (k : String) (d : Dict (List ZoneEntry))
    → gone k ≡ true
    → lookup k (keep_if (λ e. not (gone e.0)) d) ≡ none
lookup-keep_if gone k [] h = refl
lookup-keep_if gone k ((j, es) ∷ d) h = elim (Bool-cases (gone j)) [
  | inl drop_it ↦ rw drop_it (lookup-keep_if gone k d h)
  | inr keep_it ↦ elim (String-discrete k j) [
    | yes same ↦ apart (gone j) keep_it (sym (ap gone same) ∙ h)
    | no other ↦ rw keep_it (passed k j es _ other ∙ lookup-keep_if gone k d h)
  ]
]

others :
    (gone : String → Bool) (k : String) (d : Dict (List ZoneEntry))
    → gone k ≡ false
    → lookup k (keep_if (λ e. not (gone e.0)) d) ≡ lookup k d
others gone k [] h = refl
others gone k ((j, es) ∷ d) h = elim (Bool-cases (gone j)) [
  | inl drop_it ↦ elim (String-discrete k j) [
    | yes same ↦ apart (gone j) (sym (ap gone same) ∙ h) drop_it
    | no other ↦ rw drop_it (others gone k d h ∙ sym (passed k j es d other))
  ]
  | inr keep_it ↦ rw keep_it (same_head k j es _ d (others gone k d h))
]

zone_key-prefix :
    (z : ZoneTracker) (price : ℕ) (direction tf : String)
    → starts_with (zone_key z price direction tf) (zone_prefix z price) ≡ true
unfolding zone_key
zone_key-prefix z price direction tf =
    let rest = append (lower direction) (append "_" (normalise_tf tf)) in
    subst (λ k. starts_with k (zone_prefix z price) ≡ true)
      (append_assoc (show (bucket_of z price)) "_" rest)
      (starts_with-append (zone_prefix z price) rest)

-- After a reset no direction and no timeframe has a live entry at any price of the bucket.
pub reset_zone-live :
    (z : ZoneTracker) (price later now : ℕ) (direction tf : String)
    → bucket_of z later ≡ bucket_of z price
    → (live now (zone_key z later direction tf) (reset_zone price z).1).0 ≡ []
unfolding live reset_zone
reset_zone-live z price later now direction tf h =
    let key = zone_key z later direction tf in
    let starts =
      subst (λ b. starts_with key (append (show b) "_") ≡ true) h
        (zone_key-prefix z later direction tf) in
    rw (lookup-keep_if (λ k. starts_with k (zone_prefix z price)) key z.entries starts) refl

-- A zone whose keys begin otherwise keeps its entries.
pub lookup-reset_zone :
    (z : ZoneTracker) (price : ℕ) (key : String)
    → starts_with key (zone_prefix z price) ≡ false
    → lookup key (reset_zone price z).1.entries ≡ lookup key z.entries
unfolding reset_zone
lookup-reset_zone z price key h = others (λ k. starts_with k (zone_prefix z price)) key z.entries h
