-- ===== src/Market/Snapshot.antt =====
-- zcastor/market/snapshot.py: the payload as it arrives, and its hash.
use zcastor_agent.Base.{String, Bool, true, false, not, Option, List, [], ◌∷◌, keep_if}
use zcastor_agent.Base.{str_eq, if◌then◌else◌, ◌||◌}
use zcastor_agent.Base.Int.{ℤ}
use zcastor_agent.Record.Canonical.{Json, Members, no_members, member, name, other, object, string}
use zcastor_agent.Record.Canonical.{null, checksum}

-- `EXPECTED_FIELDS`
abbrev pub expected_fields : List String
expected_fields =
    "timestamp" ∷ "timeframe" ∷ "session" ∷ "regime" ∷ "tf_regime" ∷ "direction" ∷ "confidence"
    ∷ "entry_price" ∷ "range_low" ∷ "range_high" ∷ "atr" ∷ "raw_conf" ∷ "zone_status" ∷ "zone_count"
    ∷ "zone_phase" ∷ "zone_flip_pending" ∷ "nearest_resistance_pts" ∷ "nearest_support_pts"
    ∷ "nearest_resistance_price" ∷ "nearest_support_price" ∷ "resistance_strength"
    ∷ "support_strength" ∷ "spread_pts" ∷ "block_direction" ∷ "block_confidence" ∷ []

pub record SignalSnapshot : Type 0 where
  pub payload : Members
  pub origin_hash : Option String
  pub received_at : String
  pub dashboard_version : String
  pub missing_fields : List String

-- `f in frozen`
abbrev pub has_field : String → Members → Bool
has_field f no_members = false
has_field f (member other v ms) = has_field f ms
has_field f (member (name k) v ms) = let later = has_field f ms in str_eq k f || later

-- `frozen.get(f)`
abbrev pub field_of : String → Members → Json
field_of f no_members = null
field_of f (member other v ms) = field_of f ms
field_of f (member (name k) v ms) = let later = field_of f ms in if str_eq k f then v else later

-- `str(value or "")` of a value that is a text or missing.
abbrev pub declared : Json → String
declared (string s) = s
declared _ = ""

module _ (quote : String → String) (digits : ℤ → String) (sha256 : String → String) where
  unfoldable pub capture : Members → String → SignalSnapshot
  capture payload received_at = record {
    payload = payload;
    origin_hash = checksum quote digits sha256 (object payload);
    received_at = received_at;
    dashboard_version = declared (field_of "dashboard_version" payload);
    missing_fields = keep_if (λ f. not (has_field f payload)) expected_fields;
  }

unfoldable pub version_matches : SignalSnapshot → String → Bool
version_matches s expected =
    if str_eq expected "" then true else str_eq s.dashboard_version expected
