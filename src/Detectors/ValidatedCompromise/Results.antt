-- ===== src/Detectors/ValidatedCompromise/Results.antt =====
-- detectors/validatedCompromise.ts: the findings made of the correlations. The constant texts of the
-- description and of the two bases are left out; texts are sorted by their characters.
use zero_proof.Base.{
  ℕ, String, Bool, true, false, Option, none, some, List, [], ◌∷◌, map, if◌then◌else◌, length,
}
use Prim.Native.String.{compare}
use Prim.Native.Nat.{Ordering}
use zero_proof.Base.Dict.{Dict, values}
use zero_proof.Base.Text.{concat}
use zero_proof.Detection.{Severity, Evidence, critical}
use zero_proof.Detectors.Identity.{Platform, DetectorIdentity}
use zero_proof.Detectors.ValidatedCompromise.{Correlation}

pub record Report : Type 0 where
  pub fingerprint : String
  pub severity : Severity
  pub title : String
  pub affected_resource : String
  pub src_mac : Option String
  pub confidence : ℕ
  pub evidence : List Evidence
  pub identity : DetectorIdentity
  pub ioc_finding_id : Option String
  pub ioc_finding_ids : List String
  pub threat_categories : List String
  pub threat_count : ℕ
  pub source_ips : List String
  pub first_observed_at : String
  pub last_observed_at : String

first_of : List String → Option String
first_of [] = none
first_of (x ∷ xs) = some x

is_after : String → String → Bool
is_after a b = elim (compare a b) [ Ordering.gt ↦ true | _ ↦ false ]

insert : String → List String → List String
insert x [] = x ∷ []
insert x (y ∷ ys) = if is_after x y then y ∷ insert x ys else x ∷ y ∷ ys

-- `Array.from(set).sort()`
sorted : List String → List String
unfolding insert is_after
sorted [] = []
sorted (x ∷ xs) = insert x (sorted xs)

module _ (platform : Platform) where
  -- `confidence` is in hundredths.
  report : Correlation → Report
  unfolding first_of sorted
  report c = record {
    fingerprint = c.fingerprint;
    severity = critical;
    title = concat ("Corroborated IOC and IDS activity: " ∷ c.actor ∷ []);
    affected_resource = c.actor;
    src_mac = c.src_mac;
    confidence = 100;
    evidence = values c.evidence;
    identity = c.identity;
    ioc_finding_id = first_of c.ioc_finding_ids;
    ioc_finding_ids = sorted c.ioc_finding_ids;
    threat_categories = sorted c.threat_categories;
    threat_count = length c.threat_ids;
    source_ips = sorted c.source_ips;
    first_observed_at = platform.to_iso c.first_observed_at;
    last_observed_at = platform.to_iso c.last_observed_at;
  }

  pub reports : Dict Correlation → List Report
  unfolding report
  reports d = map report (values d)
