-- ===== src/Detectors/RepeatingThreat.antt =====
-- detectors/repeatingThreat.ts: sources that the IDS reported often.
pub mod Reports
use zero_proof.Base.{
  ℕ, String, Bool, Option, none, some, List, [], ◌∷◌, ◌++◌, map, or_else, if◌then◌else◌, ltb, leb,
  ◌&&◌, is_some, append, include, length, is_nil,
}
use zero_proof.Base.Text.{is_empty, concat, join, show}
use zero_proof.Base.Dict.{collect}
use zero_proof.Base.Groups.{group}
use zero_proof.Detection.{
  DetectionResult, DetectorContext, Evidence, MetaValue, high, medium, in_window,
}
use zero_proof.Detectors.{Rows, Env}
use zero_proof.Detectors.Threshold.{threshold}

-- The columns of `firewallThreatEvent` that the detector selects or filters by
pub record ThreatEvent : Type 0 where
  pub id : String
  pub occurred_at : ℕ
  pub src_ip : Option String
  pub category : Option String
  pub severity : Option String

pub record Bucket : Type 0 where
  pub ids : List String
  pub categories : List String
  pub upstream_severities : List String

abbrev pub empty_bucket : Bucket
empty_bucket = record { ids = []; categories = []; upstream_severities = [] }

key_at : Option String → Option String
key_at none = none
key_at (some ip) = if is_empty ip then none else some ip

pub key_of : ThreatEvent → Option String
unfolding key_at
key_of e = key_at e.src_ip

-- `if (s) set.add(s)`
abbrev pub include_some : List String → Option String → List String
include_some xs none = xs
include_some xs (some s) = if is_empty s then xs else include xs s

abbrev pub filled : Bucket → ThreatEvent → Bucket
filled b e = record {
  ids = b.ids ++ e.id ∷ [];
  categories = include_some b.categories e.category;
  upstream_severities = include_some b.upstream_severities e.severity;
}

pub put : Option Bucket → ThreatEvent → Bucket
put o e = filled (or_else o empty_bucket) e

-- `Array.from(categories).join(', ') || 'unspecified'`
category_text : List String → String
category_text cs = let joined = join ", " cs in if is_empty joined then "unspecified" else joined

pub finding : (medium_at high_at : ℕ) → String → Bucket → Option DetectionResult
unfolding category_text
finding medium_at high_at src_ip b =
    let n = length b.ids in
    if ltb n medium_at
    then none
    else some (record {
      fingerprint = append "repeating_threat:" src_ip;
      severity = if leb high_at n then high else medium;
      title = concat (show n ∷ " IDS hits from " ∷ src_ip ∷ []);
      description = concat (
          "UniFi IDS reported "
          ∷ show n
          ∷ " threat events from this source during the window. Categories: "
          ∷ category_text b.categories
          ∷ "."
          ∷ []);
      remediation = none;
      affected_resource = some src_ip;
      src_mac = none;
      confidence = none;
      evidence = map Evidence.threat b.ids;
      metadata = some (
          ("srcIp", MetaValue.text src_ip)
          ∷ ("count", MetaValue.num n)
          ∷ ("categories", MetaValue.texts b.categories)
          ∷ ("upstreamSeverities", MetaValue.texts b.upstream_severities)
          ∷ []);
    })

abbrev pub medium_at : Env → ℕ
medium_at env = threshold env "REPEATING_THRESHOLD_MED" 5

abbrev pub high_at : Env → ℕ
high_at env = threshold env "REPEATING_THRESHOLD_HIGH" 20

abbrev pub selects : DetectorContext → ThreatEvent → Bool
selects ctx e = in_window ctx e.occurred_at && is_some e.src_ip

pub evaluate : Rows ThreatEvent → Env → DetectorContext → List DetectionResult
evaluate rows env ctx =
    collect (finding (medium_at env) (high_at env))
      (group key_of put [] (rows.find_many (selects ctx)))
