-- ===== src/Detectors/HighRiskCountryEgress.antt =====
-- detectors/highRiskCountryEgress.ts: flows to countries on the operator's watch list, one finding for
-- each device and region. The running total of bytes becomes a text at the end.
pub mod Reports
use zero_proof.Base.{
  ℕ, ◌+◌, String, append, Bool, false, not, ◌&&◌, Option, none, some, List, [], ◌∷◌, ◌++◌, map,
  if◌then◌else◌, or_else, keep, has, is_nil,
}
use zero_proof.Base.Text.{is_empty, split, concat, show, trim, to_upper_case}
use zero_proof.Base.Dict.{collect}
use zero_proof.Base.Groups.{group}
use zero_proof.Detection.{
  DetectionResult, DetectorContext, Severity, MetaValue, medium, info, in_window, Evidence,
}
use zero_proof.Detectors.{
  Flow, Rows, Env, env_value, src_key, actor_of, flow_evidence, is_blocked, text_or_null,
}

abbrev pub default_high_risk : List String
default_high_risk = "CN" ∷ "RU" ∷ "KP" ∷ "IR" ∷ []

named_countries : List String → List String
named_countries ss = keep (λ c. not (is_empty c)) (map (λ c. to_upper_case (trim c)) ss)

pub high_risk_countries : Env → List String
unfolding named_countries
high_risk_countries env = elim (env_value env "HIGH_RISK_COUNTRIES") [
  | none ↦ default_high_risk
  | some raw ↦ named_countries (split b',' raw)
]

pub severity_for : Option String → Severity
severity_for action = if is_blocked action then info else medium

-- `dstRegion: { in: watch }`
abbrev pub region_in : List String → Option String → Bool
region_in watch none = false
region_in watch (some region) = has watch region

-- The key of a row after the detector's name, `none` where the loop goes on to the next
key_at : Flow → Option String → Option String
key_at f none = none
key_at f (some region) =
    if is_empty region then none else some (concat (src_key f ∷ ":" ∷ region ∷ []))

pub key_of : Flow → Option String
unfolding key_at
key_of f = key_at f f.dst_region

pub record Pending : Type 0 where
  pub severity : Severity
  pub actor : String
  pub src_mac : Option String
  pub region : String
  pub action : Option String
  pub evidence : List Evidence
  pub total_bytes : ℕ

abbrev pub bytes_of : Flow → ℕ
bytes_of f = or_else f.bytes_total 0

pub first_egress : Flow → Pending
first_egress f = record {
  severity = severity_for f.action;
  actor = actor_of f;
  src_mac = f.src_mac;
  region = or_else f.dst_region "";
  action = f.action;
  evidence = flow_evidence f ∷ [];
  total_bytes = bytes_of f;
}

-- `if (severityFor(flow.action) === 'MEDIUM') existing.severity = 'MEDIUM'`
raised : Severity → Severity → Severity
raised medium old = medium
raised _ old = old

pub egress : Option Pending → Flow → Pending
unfolding first_egress raised
egress none f = first_egress f
egress (some p) f = record p {
  severity = raised (severity_for f.action) p.severity;
  evidence = p.evidence ++ flow_evidence f ∷ [];
  total_bytes = p.total_bytes + bytes_of f;
}

-- The result under a key
pub finding : String → Pending → DetectionResult
finding key p = record {
  fingerprint = append "high_risk_country_egress:" key;
  severity = p.severity;
  title = concat (p.actor ∷ " egressed to " ∷ p.region ∷ []);
  description = concat (
      "Flow destination resolved to " ∷ p.region ∷ ", which is on the high-risk country watch list."
      ∷ []);
  remediation = none;
  affected_resource = some p.actor;
  src_mac = p.src_mac;
  confidence = none;
  evidence = p.evidence;
  metadata = some (
      ("dstRegion", MetaValue.text p.region)
      ∷ ("totalBytes", MetaValue.text (show p.total_bytes))
      ∷ ("action", text_or_null p.action)
      ∷ []);
}

abbrev pub selects : Env → DetectorContext → Flow → Bool
selects env ctx f = in_window ctx f.occurred_at && region_in (high_risk_countries env) f.dst_region

pub evaluate : Rows Flow → Env → DetectorContext → List DetectionResult
evaluate rows env ctx =
    if is_nil (high_risk_countries env)
    then []
    else collect (λ k p. some (finding k p))
        (group key_of egress [] (rows.find_many (selects env ctx)))
