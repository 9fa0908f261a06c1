-- ===== src/Detectors/HighEgressVolume.antt =====
-- detectors/highEgressVolume.ts: a device that sent much data to the outside. Byte counts are
-- natural numbers, as `BigInt` has them, and `toFixed(2)` of a quotient by a power of two is written
-- out in hundredths, rounded half up.
pub mod Reports
use zero_proof.Base.{
  ℕ, ◌+◌, ◌*◌, ◌/◌, ◌%◌, String, append, Bool, not, ◌&&◌, ◌||◌, Option, none, some, List, [], ◌∷◌,
  ltb, leb, if◌then◌else◌, or_else, is_some, push_capped,
}
use zero_proof.Detection.{
  DetectorContext, Evidence, DetectionResult, in_window, high, medium, MetaValue,
}
use zero_proof.Detectors.{
  Rows, Env, Flow, actor_of, flow_evidence, is_private_ip, is_private, src_key,
}
use zero_proof.Base.Text.{show, concat}
use zero_proof.Base.Dict.{collect}
use zero_proof.Base.Groups.{group}
use zero_proof.Detectors.Threshold.{threshold}

abbrev pub gib : ℕ
gib = 1073741824

abbrev pub mib : ℕ
mib = 1048576

two_digits : ℕ → String
two_digits n = append (show (n / 10)) (show (n % 10))

-- `(n / unit).toFixed(2)`
fixed_2 : ℕ → ℕ → String
unfolding two_digits
fixed_2 n unit =
    let hundredths = (n * 200 + unit) / (2 * unit) in
    concat (show (hundredths / 100) ∷ "." ∷ two_digits (hundredths % 100) ∷ [])

format_bytes : ℕ → String
unfolding fixed_2
format_bytes n = if leb gib n then append (fixed_2 n gib) " GiB" else append (fixed_2 n mib) " MiB"

pub record Bucket : Type 0 where
  pub bytes : ℕ
  pub evidence : List Evidence
  pub actor : String
  pub src_mac : Option String

abbrev pub fresh_bucket : Flow → Bucket
fresh_bucket f = record { bytes = 0; evidence = []; actor = actor_of f; src_mac = f.src_mac }

abbrev pub limit_of : Env → ℕ
limit_of env = threshold env "HIGH_EGRESS_BYTES_THRESHOLD" gib

pub key_of : Flow → Option String
key_of f = if not (is_private f.src_ip) || is_private f.dst_ip then none else some (src_key f)

abbrev pub filled : Bucket → Flow → Bucket
filled b f = record b {
  bytes = b.bytes + or_else f.bytes_total 0;
  evidence = push_capped 10 b.evidence (flow_evidence f);
}

pub put : Option Bucket → Flow → Bucket
put o f = filled (or_else o (fresh_bucket f)) f

pub finding : ℕ → String → Bucket → Option DetectionResult
unfolding format_bytes
finding limit key b =
    if ltb b.bytes limit
    then none
    else some (record {
      fingerprint = append "high_egress_volume:" key;
      severity = if leb (limit * 5) b.bytes then high else medium;
      title = concat (b.actor ∷ " egressed " ∷ format_bytes b.bytes ∷ []);
      description = concat (
          "Total outbound traffic from this device exceeded the configured threshold ("
          ∷ format_bytes limit
          ∷ "). Confirm this matches expected device behavior."
          ∷ []);
      remediation = none;
      affected_resource = some b.actor;
      src_mac = b.src_mac;
      confidence = none;
      evidence = b.evidence;
      metadata = some (
          ("totalBytes", MetaValue.text (show b.bytes))
          ∷ ("threshold", MetaValue.text (show limit))
          ∷ []);
    })

abbrev pub selects : DetectorContext → Flow → Bool
selects ctx f = in_window ctx f.occurred_at && is_some f.bytes_total

pub evaluate : Rows Flow → Env → DetectorContext → List DetectionResult
evaluate rows env ctx =
    collect (finding (limit_of env)) (group key_of put [] (rows.find_many (selects ctx)))
