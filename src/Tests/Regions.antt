-- ===== src/Tests/Regions.antt =====
-- Two flows of one device to a watched region.
use zero_proof.Base.{append, ◌≡◌, some, List, [], ◌∷◌, keep}
use zero_proof.Base.Dict.{find_named}
use zero_proof.Base.Groups.{is_key}
use zero_proof.Detectors.{Flow, Env}
use zero_proof.Detectors.HighRiskCountryEgress.{evaluate, key_of, selects}
use zero_proof.Detectors.HighRiskCountryEgress.Reports.{high_risk_country_egress-report, report}
use zero_proof.Tests.{stored, one_variable, hour, flow_to}

abbrev watched : Env
watched = one_variable "HIGH_RISK_COUNTRIES" "ru, cn"

abbrev abroad : List Flow
abroad =
    record (flow_to "f1" "blocked" "203.0.113.9" 443) { dst_region = some "RU" }
    ∷ record (flow_to "f2" "allowed" "203.0.113.9" 443) { dst_region = some "RU" }
    ∷ []

high_risk_country_egress-report_example :
    find_named
      (λ r. r.fingerprint)
      (append "high_risk_country_egress:" "de:ad:be:ef:00:01:RU")
      (evaluate (stored abroad) watched hour)
    ≡ report "de:ad:be:ef:00:01:RU" (
        keep
          (λ f. is_key "de:ad:be:ef:00:01:RU" (key_of f))
          ((stored abroad).find_many (selects watched hour)))
high_risk_country_egress-report_example =
    high_risk_country_egress-report (stored abroad) watched hour "de:ad:be:ef:00:01:RU"
