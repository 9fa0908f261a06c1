-- ===== src/Detectors/InternalScanning/Reports.antt =====
-- What internal_scanning reports: a source with enough distinct targets, with its first flows.
use zero_proof.Base.{
  ℕ, ◌*◌, ◌≤◌, ◌<◌, String, append, ◌≡◌, refl, sym, ap, ◌∙◌, inl, inr, Option, none, some, List, [],
  ◌∷◌, ◌++◌, map, arith, ltb, leb, if◌then◌else◌, Bool-cases, length, keep, include_all, take,
  take_all, ltb→lt, length-push_capped, take-push_capped,
}
use zero_proof.Base.Dict.{find_named, at_entry}
use zero_proof.Base.Groups.{is_key, absorb, find_named-collect-group}
use zero_proof.Detection.{DetectionResult, DetectorContext, high, medium}
use zero_proof.Detectors.{Flow, Rows, Env, flow_evidence}
use zero_proof.Detectors.Threshold.{threshold-pos}
use mathlib.Core.List.{append-nil}
use zero_proof.Detectors.InternalScanning.{
  evaluate, put, finding, key_of, selects, Bucket, filled, fresh_bucket, limit_of, dst_text,
}

-- A bucket that more flows have filled
abbrev filled_by : Bucket → List Flow → Bucket
filled_by b fs = record b {
  targets = include_all b.targets (map dst_text fs);
  evidence = take 20 (b.evidence ++ map flow_evidence fs);
}

absorb-filled_by :
    (b : Bucket) (fs : List Flow)
    → length b.evidence ≤ 20
    → absorb key_of put (some b) fs ≡ some (filled_by b fs)
unfolding put
absorb-filled_by b [] h =
    ap (λ es. some (record b { evidence = es }))
      (sym (take_all 20 b.evidence h) ∙ ap (take 20) (sym (append-nil b.evidence)))
absorb-filled_by b (f ∷ fs) h =
    absorb-filled_by (filled b f) fs (length-push_capped 20 b.evidence (flow_evidence f) h)
    ∙ ap (λ es. some (record (filled_by (filled b f) fs) { evidence = es }))
        (take-push_capped 20 b.evidence (flow_evidence f) (map flow_evidence fs) h)

-- The number of distinct addresses among the destinations of some flows
abbrev pub distinct_targets : List Flow → ℕ
distinct_targets fs = length (include_all [] (map dst_text fs))

-- What the detector owes to a source with these flows: nothing below the threshold, else a finding
-- whose severity follows the number of distinct targets, with the first twenty flows as evidence.
abbrev pub IsOwed : ℕ → List Flow → Option DetectionResult → Type 0
IsOwed limit fs none = distinct_targets fs < limit
IsOwed limit fs (some r) =
    (limit ≤ distinct_targets fs)
    × (r.severity ≡ (if leb (limit * 2) (distinct_targets fs) then high else medium))
    × (r.evidence ≡ take 20 (map flow_evidence fs))

finding-IsOwed :
    (limit : ℕ) (key : String) (fs : List Flow) (b : Bucket)
    → b.targets ≡ include_all [] (map dst_text fs)
    → b.evidence ≡ take 20 (map flow_evidence fs)
    → IsOwed limit fs (finding limit key b)
unfolding finding
finding-IsOwed limit key fs b t ev = elim (Bool-cases (ltb (length b.targets) limit)) [
  | inl few ↦ rw few (rw (← t) (ltb→lt _ _ few))
  | inr many ↦ rw many (rw (← t) (ground arith), rw t refl, ev)
]

absorb-IsOwed :
    (limit : ℕ) (key : String) (fs : List Flow)
    → 0 < limit
    → IsOwed limit fs (at_entry (finding limit) key (absorb key_of put none fs))
unfolding put
absorb-IsOwed limit key [] h = h
absorb-IsOwed limit key (f ∷ fs) h =
    rw (absorb-filled_by (fresh_bucket f) (f ∷ fs) (omega arith))
      (finding-IsOwed limit key (f ∷ fs) (filled_by (fresh_bucket f) (f ∷ fs)) refl refl)

finding-fingerprint :
    (limit : ℕ) (k : String) (b : Bucket) (r : DetectionResult)
    → finding limit k b ≡ some r
    → r.fingerprint ≡ append "internal_scanning:" k
unfolding finding
finding-fingerprint limit k b r e = ground arith

-- Every source gets exactly what its selected flows between two private addresses call for.
pub internal_scanning-IsOwed :
    (rows : Rows Flow) (env : Env) (ctx : DetectorContext) (key : String)
    → IsOwed
        (limit_of env)
        (keep (λ f. is_key key (key_of f)) (rows.find_many (selects ctx)))
        (find_named (λ r. r.fingerprint) (append "internal_scanning:" key) (evaluate rows env ctx))
unfolding evaluate
internal_scanning-IsOwed rows env ctx key =
    let found = rows.find_many (selects ctx) in
    rw
      (find_named-collect-group key_of put (finding (limit_of env)) (λ r. r.fingerprint)
        "internal_scanning:" (finding-fingerprint (limit_of env)) found key)
      (absorb-IsOwed (limit_of env) key (keep (λ f. is_key key (key_of f)) found)
        (threshold-pos env "INTERNAL_SCAN_THRESHOLD" 25 (omega arith)))
