-- ===== src/Detectors/InternalScanning.antt =====
-- detectors/internalScanning.ts: a source that contacted many addresses inside.
pub mod Reports
use zero_proof.Base.{
  ℕ, ◌*◌, ◌/◌, String, append, Bool, true, false, not, ◌&&◌, ◌||◌, Option, none, some, List, [],
  ◌∷◌, str_eq, ltb, leb, if◌then◌else◌, or_else, is_some, length, include, push_capped, take,
}
use zero_proof.Detection.{
  DetectorContext, Evidence, DetectionResult, in_window, high, medium, MetaValue,
}
use zero_proof.Detectors.{
  Rows, Env, Flow, actor_of, flow_evidence, is_private_ip, is_private, src_key,
}
use zero_proof.Base.Dict.{collect}
use zero_proof.Base.Groups.{group}
use zero_proof.Base.Text.{concat, show}
use zero_proof.Detectors.Threshold.{threshold}

pub record Bucket : Type 0 where
  pub targets : List String
  pub evidence : List Evidence
  pub actor : String
  pub src_mac : Option String

abbrev pub fresh_bucket : Flow → Bucket
fresh_bucket f = record { targets = []; evidence = []; actor = actor_of f; src_mac = f.src_mac }

abbrev pub limit_of : Env → ℕ
limit_of env = threshold env "INTERNAL_SCAN_THRESHOLD" 25

same_text : Option String → Option String → Bool
same_text (some a) (some b) = str_eq a b
same_text none none = true
same_text _ _ = false

pub key_of : Flow → Option String
unfolding same_text
key_of f =
    if not (is_private f.src_ip) || not (is_private f.dst_ip)
    then none
    else if same_text f.src_ip f.dst_ip
    then none
    else some (src_key f)

-- `flow.dstIp!`
abbrev pub dst_text : Flow → String
dst_text f = or_else f.dst_ip ""

abbrev pub filled : Bucket → Flow → Bucket
filled b f = record b {
  targets = include b.targets (dst_text f);
  evidence = push_capped 20 b.evidence (flow_evidence f);
}

pub put : Option Bucket → Flow → Bucket
put o f = filled (or_else o (fresh_bucket f)) f

pub finding : ℕ → String → Bucket → Option DetectionResult
finding limit key b =
    let distinct = length b.targets in
    if ltb distinct limit
    then none
    else some (record {
      fingerprint = append "internal_scanning:" key;
      severity = if leb (limit * 2) distinct then high else medium;
      title = concat (b.actor ∷ " contacted " ∷ show distinct ∷ " distinct internal IPs" ∷ []);
      description = concat (
          "Source talked to "
          ∷ show distinct
          ∷ " unique LAN addresses during the window — characteristic of reconnaissance / scanning behavior."
          ∷ []);
      remediation = none;
      affected_resource = some b.actor;
      src_mac = b.src_mac;
      confidence = none;
      evidence = b.evidence;
      metadata = some (
          ("distinctTargets", MetaValue.num distinct)
          ∷ ("threshold", MetaValue.num limit)
          ∷ ("sampleTargets", MetaValue.texts (take 10 b.targets))
          ∷ []);
    })

abbrev pub selects : DetectorContext → Flow → Bool
selects ctx f = in_window ctx f.occurred_at && is_some f.src_ip && is_some f.dst_ip

pub evaluate : Rows Flow → Env → DetectorContext → List DetectionResult
evaluate rows env ctx =
    collect (finding (limit_of env)) (group key_of put [] (rows.find_many (selects ctx)))
