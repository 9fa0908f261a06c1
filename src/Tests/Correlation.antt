-- ===== src/Tests/Correlation.antt =====
-- A stored finding, the flow that it names and an IDS event of the same source.
use zero_proof.Base.{
  ℕ, String, ◌≡◌, refl, inl, inr, Bool, true, Option, none, some, List, [], ◌∷◌, arith,
  if◌then◌else◌, Bool-cases, All,
}
use zero_proof.Base.Dict.{Dict}
use zero_proof.Base.Text.{trim}
use zero_proof.Rules.Value.{Value, num, str, null, obj, arr, own, no_fields, element, no_items}
use zero_proof.Detectors.{Rows}
use zero_proof.Detectors.Paging.{PagedQuery}
use zero_proof.Detectors.ValidatedCompromise.{FlowRow, ThreatRow, Correlation}
use zero_proof.Detectors.ValidatedCompromise.Candidates.{DetectionRow}
use zero_proof.Detectors.ValidatedCompromise.Evaluate.{evaluate}
use zero_proof.Detectors.ValidatedCompromise.Supported.{IsSupported}
use zero_proof.Detectors.ValidatedCompromise.Correlated.{HasId}
use zero_proof.Detectors.ValidatedCompromise.Whole.{IsCandidateOf, evaluate-IsSupported}
use zero_proof.Tests.{hour}
use zero_proof.Tests.Ioc.{platform, in_memory, evidence_key}

abbrev machine : Value
machine = obj (
    own "version" (num 2) (
      own "sourceKind" (str "unifi") (
        own "connectionId" (str "c1") (
          own "scopeId" (str "site") (
            own "srcIp" (str "10.0.0.7")
              (own "srcMac" null (own "eventId" (str "f1") (own "observedAt" null no_fields))))))))

abbrev finding : DetectionRow
finding = record {
  id = "d1";
  metadata = obj (own "identity" machine (own "matchedValue" (str "203.0.113.9") no_fields));
  evidence = arr (
      element (obj (own "kind" (str "flow") (own "id" (str "f1") no_fields))) (
        element
          (obj (
            own "kind" (str "ioc")
              (own "ioc" (str "203.0.113.9") (own "feed" (str "feed") no_fields))))
          no_items));
}

abbrev flow : FlowRow
flow = record {
  id = "f1";
  connection_id = "c1";
  scope_id = some "site";
  occurred_at = 1000;
  src_ip = some "10.0.0.7";
  src_mac = none;
  src_client_name = none;
  dst_ip = some "203.0.113.9";
}

abbrev threat : ThreatRow
threat = record {
  id = "t1";
  connection_id = "c1";
  scope_id = some "site";
  src_ip = some "10.0.0.7";
  occurred_at = 2000;
  category = none;
  threat_type = some "THREAT_DETECTION_AND_PREVENTION";
  subcategory = none;
}

abbrev no_date : String → Option ℕ
no_date s = none

-- One stored flow
kept-HasId : (p : FlowRow → Bool) → All (HasId) (if p flow then flow ∷ [] else [])
unfolding trim
kept-HasId p = elim (Bool-cases (p flow)) [ inl h ↦ rw h (refl, tt) | inr h ↦ rw h tt ]

kept-holds : (p : FlowRow → Bool) → All (λ f. p f ≡ true) (if p flow then flow ∷ [] else [])
kept-holds p = elim (Bool-cases (p flow)) [ inl h ↦ rw h (h, tt) | inr h ↦ rw h tt ]

abbrev one_flow : Rows FlowRow
one_flow = record { find_many = λ p. if p flow then flow ∷ [] else []; find_many-All = kept-holds }

abbrev findings : PagedQuery DetectionRow
findings = in_memory (λ d. d.id) (finding ∷ []) (refl, tt, tt)

abbrev threats : List String → PagedQuery ThreatRow
threats scopes = in_memory (λ t. t.id) (threat ∷ []) (refl, tt, tt)

evaluate-IsSupported_example :
    (found : Dict Correlation) × (evaluate platform no_date evidence_key hour 2 one_flow threats
        findings
      ≡ some (some found))
    × All
        (IsSupported platform hour one_flow threats (IsCandidateOf platform no_date findings))
        found
evaluate-IsSupported_example =
    evaluate-IsSupported platform no_date evidence_key hour 2 one_flow threats
      (λ scopes. omega arith) kept-HasId findings (omega arith)
