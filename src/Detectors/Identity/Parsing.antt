-- ===== src/Detectors/Identity/Parsing.antt =====
-- detectors/identity.ts, parseDetectorIdentity: an identity read back from the metadata of a finding.
-- `Date.parse` is a parameter; a date that is not one is `none`.
use zero_proof.Base.{
  ℕ, String, Bool, not, ◌&&◌, ◌||◌, Option, none, some, str_eq, if◌then◌else◌, is_some,
}
use zero_proof.Rules.Value.{Value, Fields, null, num, str, obj, own, no_fields, field_at, strict_eq}
use zero_proof.Detectors.Identity.{
  Platform, DetectorIdentity, SourceKind, unifi, adguard, create_detector_identity, trimmed,
  source_text,
}

abbrev pub string_in : Value → Option String
string_in (str s) = some s
string_in _ = none

-- A field that must be null or a text; `none` where it is neither
nullable : Value → Option (Option String)
nullable null = some none
nullable (str s) = some (some s)
nullable _ = none

source_kind_in : Value → Option SourceKind
source_kind_in (str s) =
    if str_eq s "unifi" then some unifi else if str_eq s "adguard" then some adguard else none
source_kind_in _ = none

date_in : (String → Option ℕ) → Option String → Option ℕ
date_in date_parse none = none
date_in date_parse (some s) = date_parse s

-- A field that was there has to be there still.
is_lost : Option String → Option String → Bool
is_lost before after = is_some before && not (is_some after)

checked :
    Option String
    → Option String
    → Option String
    → Option DetectorIdentity
    → Option DetectorIdentity
unfolding is_lost
checked ip mac time none = none
checked ip mac time (some i) =
    if is_lost ip i.src_ip || is_lost mac i.src_mac || is_lost time i.observed_at
    then none
    else some i

module _ (platform : Platform) (date_parse : String → Option ℕ) where
  typed_identity :
      Option SourceKind
      → Option String
      → Option (Option String)
      → Option (Option String)
      → Option (Option String)
      → Option (Option String)
      → Option (Option String)
      → Option DetectorIdentity
  unfolding date_in checked
  typed_identity (some kind) (some event) (some connection) (some scope) (some ip) (some mac)
        (some time) =
      checked ip mac time (
        create_detector_identity platform record {
          source_kind = kind;
          connection_id = connection;
          scope_id = scope;
          src_ip = ip;
          src_mac = mac;
          event_id = event;
          observed_at = date_in date_parse time;
        })
  typed_identity _ _ _ _ _ _ _ = none

  identity_in : Fields → Option DetectorIdentity
  unfolding typed_identity source_kind_in nullable
  identity_in fs =
      if strict_eq (field_at fs "version") (num 2)
      then typed_identity (source_kind_in (field_at fs "sourceKind"))
          (trimmed (string_in (field_at fs "eventId"))) (nullable (field_at fs "connectionId"))
          (nullable (field_at fs "scopeId")) (nullable (field_at fs "srcIp"))
          (nullable (field_at fs "srcMac")) (nullable (field_at fs "observedAt"))
      else none

  pub parse_detector_identity : Value → Option DetectorIdentity
  unfolding identity_in
  parse_detector_identity (obj fs) = identity_in fs
  parse_detector_identity _ = none

null_or : Option String → Value
null_or none = null
null_or (some s) = str s

-- An identity as the object that it is
pub identity_value : DetectorIdentity → Value
unfolding null_or
identity_value i = obj (
    own "version" (num 2) (
      own "sourceKind" (str (source_text i.source_kind)) (
        own "connectionId" (null_or i.connection_id) (
          own "scopeId" (null_or i.scope_id) (
            own "srcIp" (null_or i.src_ip) (
              own "srcMac" (null_or i.src_mac) (
                own "eventId" (str i.event_id)
                  (own "observedAt" (null_or i.observed_at) no_fields))))))))
