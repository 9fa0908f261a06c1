-- ===== src/Detectors/HighEgressVolume/Reports.antt =====
-- What high_egress_volume reports: a device whose outbound bytes reach the threshold.
use zero_proof.Base.{
  ℕ, ◌+◌, ◌*◌, ◌≤◌, ◌<◌, String, append, ◌≡◌, refl, sym, ap, ◌∙◌, inl, inr, Option, none, some,
  List, [], ◌∷◌, ◌++◌, map, arith, ltb, leb, if◌then◌else◌, Bool-cases, or_else, length, keep, take,
  ltb→lt, take_all, length-push_capped, take-push_capped,
}
use zero_proof.Base.Dict.{find_named, at_entry}
use zero_proof.Base.Groups.{is_key, absorb, find_named-collect-group}
use zero_proof.Detection.{DetectionResult, DetectorContext, high, medium}
use zero_proof.Detectors.{Flow, Rows, Env, flow_evidence}
use zero_proof.Detectors.Threshold.{threshold-pos}
use mathlib.Core.Path.{ap₂}
use mathlib.Core.List.{append-nil}
use zero_proof.Detectors.HighEgressVolume.{
  evaluate, put, finding, key_of, selects, Bucket, filled, fresh_bucket, limit_of, gib,
}

-- The bytes of some flows together
abbrev pub total_bytes : List Flow → ℕ
total_bytes [] = 0
total_bytes (f ∷ fs) = or_else f.bytes_total 0 + total_bytes fs

-- A bucket that more flows have filled
abbrev filled_by : Bucket → List Flow → Bucket
filled_by b fs = record b {
  bytes = b.bytes + total_bytes fs;
  evidence = take 10 (b.evidence ++ map flow_evidence fs);
}

absorb-filled_by :
    (b : Bucket) (fs : List Flow)
    → length b.evidence ≤ 10
    → absorb key_of put (some b) fs ≡ some (filled_by b fs)
unfolding put
absorb-filled_by b [] h =
    ap₂ (λ n es. some (record b { bytes = n; evidence = es })) (omega arith)
      (sym (take_all 10 b.evidence h) ∙ ap (take 10) (sym (append-nil b.evidence)))
absorb-filled_by b (f ∷ fs) h =
    absorb-filled_by (filled b f) fs (length-push_capped 10 b.evidence (flow_evidence f) h)
    ∙ ap₂ (λ n es. some (record b { bytes = n; evidence = es })) (omega arith)
        (take-push_capped 10 b.evidence (flow_evidence f) (map flow_evidence fs) h)

-- What the detector owes to a device with these flows: nothing below the threshold, else a finding
-- whose severity follows the sum of the bytes, with the first ten flows as evidence.
abbrev pub IsOwed : ℕ → List Flow → Option DetectionResult → Type 0
IsOwed limit fs none = total_bytes fs < limit
IsOwed limit fs (some r) =
    (limit ≤ total_bytes fs)
    × (r.severity ≡ (if leb (limit * 5) (total_bytes fs) then high else medium))
    × (r.evidence ≡ take 10 (map flow_evidence fs))

finding-IsOwed :
    (limit : ℕ) (key : String) (fs : List Flow) (b : Bucket)
    → b.bytes ≡ total_bytes fs
    → b.evidence ≡ take 10 (map flow_evidence fs)
    → IsOwed limit fs (finding limit key b)
unfolding finding
finding-IsOwed limit key fs b t ev = elim (Bool-cases (ltb b.bytes limit)) [
  | inl few ↦ rw few (rw (← t) (ltb→lt _ _ few))
  | inr many ↦ rw many (rw (← t) (ground arith), rw t refl, ev)
]

absorb-IsOwed :
    (limit : ℕ) (key : String) (fs : List Flow)
    → 0 < limit
    → IsOwed limit fs (at_entry (finding limit) key (absorb key_of put none fs))
unfolding put
absorb-IsOwed limit key [] h = h
absorb-IsOwed limit key (f ∷ fs) h =
    rw (absorb-filled_by (fresh_bucket f) (f ∷ fs) (omega arith))
      (finding-IsOwed limit key (f ∷ fs) (filled_by (fresh_bucket f) (f ∷ fs)) (omega arith) refl)

finding-fingerprint :
    (limit : ℕ) (k : String) (b : Bucket) (r : DetectionResult)
    → finding limit k b ≡ some r
    → r.fingerprint ≡ append "high_egress_volume:" k
unfolding finding
finding-fingerprint limit k b r e = ground arith

-- Every device gets exactly what its selected flows from a private address to another kind of
-- destination call for.
pub high_egress_volume-IsOwed :
    (rows : Rows Flow) (env : Env) (ctx : DetectorContext) (key : String)
    → IsOwed
        (limit_of env)
        (keep (λ f. is_key key (key_of f)) (rows.find_many (selects ctx)))
        (find_named (λ r. r.fingerprint) (append "high_egress_volume:" key) (evaluate rows env ctx))
unfolding evaluate
high_egress_volume-IsOwed rows env ctx key =
    let found = rows.find_many (selects ctx) in
    rw
      (find_named-collect-group key_of put (finding (limit_of env)) (λ r. r.fingerprint)
        "high_egress_volume:" (finding-fingerprint (limit_of env)) found key)
      (absorb-IsOwed (limit_of env) key (keep (λ f. is_key key (key_of f)) found)
        (threshold-pos env "HIGH_EGRESS_BYTES_THRESHOLD" gib (omega arith)))
