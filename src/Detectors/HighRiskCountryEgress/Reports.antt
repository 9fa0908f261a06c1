-- ===== src/Detectors/HighRiskCountryEgress/Reports.antt =====
-- What high_risk_country_egress reports: one finding for each device and watched region.
use zero_proof.Base.{
  ℕ, ◌+◌, String, append, ◌≡◌, refl, sym, ap, ◌∙◌, inl, inr, Bool, true, false, not, ◌&&◌, Option,
  none, some, List, [], ◌∷◌, ◌++◌, map, arith, if◌then◌else◌, Bool-cases, or_else, keep, any,
  is_nil,
}
use mathlib.Core.List.{append_assoc, append-nil}
use zero_proof.Base.Dict.{find_named, at_entry, collect}
use zero_proof.Base.Groups.{is_key, absorb, group, find_named-collect-group}
use zero_proof.Detection.{DetectionResult, DetectorContext, medium, info, in_window, MetaValue}
use zero_proof.Detectors.{Flow, Rows, Env, is_blocked, flow_evidence, actor_of, text_or_null}
use zero_proof.Detectors.Merging.{nil_of_none}
use zero_proof.Base.Text.{concat, show}
use zero_proof.Detectors.HighRiskCountryEgress.{
  Pending, evaluate, egress, first_egress, finding, key_of, selects, severity_for,
  high_risk_countries, region_in, bytes_of,
}

-- The bytes of some flows, added up
abbrev pub sum_bytes : List Flow → ℕ
sum_bytes [] = 0
sum_bytes (f ∷ fs) = bytes_of f + sum_bytes fs

abbrev pub allowed : Flow → Bool
allowed f = not (is_blocked f.action)

abbrev extended : Pending → List Flow → Pending
extended p fs = record p {
  severity = if any allowed fs then medium else p.severity;
  evidence = p.evidence ++ map flow_evidence fs;
  total_bytes = p.total_bytes + sum_bytes fs;
}

-- The finding that a list of flows of one device to one region calls for
abbrev pub report : String → List Flow → Option DetectionResult
report key [] = none
report key (f ∷ fs) =
    let region = or_else f.dst_region "" in
    some (record {
      fingerprint = append "high_risk_country_egress:" key;
      severity = if any allowed (f ∷ fs) then medium else info;
      title = concat (actor_of f ∷ " egressed to " ∷ region ∷ []);
      description = concat (
          "Flow destination resolved to " ∷ region
          ∷ ", which is on the high-risk country watch list." ∷ []);
      remediation = none;
      affected_resource = some (actor_of f);
      src_mac = f.src_mac;
      confidence = none;
      evidence = map flow_evidence (f ∷ fs);
      metadata = some (
          ("dstRegion", MetaValue.text region)
          ∷ ("totalBytes", MetaValue.text (show (sum_bytes (f ∷ fs))))
          ∷ ("action", text_or_null f.action)
          ∷ []);
    })

extended-nil : (p : Pending) → extended p [] ≡ p
extended-nil p = ground (arith, append-nil p.evidence)

egress-again : (p : Pending) (f : Flow) → egress (some p) f ≡ extended p (f ∷ [])
unfolding egress severity_for
egress-again p f = ground arith

extended-cons :
    (p : Pending) (f : Flow) (fs : List Flow)
    → extended (extended p (f ∷ [])) fs ≡ extended p (f ∷ fs)
extended-cons p f fs =
    ground (arith, append_assoc p.evidence (flow_evidence f ∷ []) (map flow_evidence fs))

absorb-extended :
    (p : Pending) (fs : List Flow) → absorb key_of egress (some p) fs ≡ some (extended p fs)
absorb-extended p [] = ap some (sym (extended-nil p))
absorb-extended p (f ∷ fs) =
    absorb-extended (egress (some p) f) fs ∙ ap some (rw (egress-again p f) (extended-cons p f fs))

absorb-report :
    (key : String) (fs : List Flow)
    → at_entry (λ k p. some (finding k p)) key (absorb key_of egress none fs) ≡ report key fs
unfolding egress severity_for first_egress finding
absorb-report key [] = refl
absorb-report key (f ∷ fs) = rw (absorb-extended (first_egress f) fs) (ground arith)

finding-fingerprint :
    (k : String) (p : Pending) (r : DetectionResult)
    → some (finding k p) ≡ some r
    → r.fingerprint ≡ append "high_risk_country_egress:" k
unfolding finding
finding-fingerprint k p r e = ground arith

no_countries :
    (watch : List String) (o : Option String) (a : Bool)
    → is_nil watch ≡ true
    → (a && region_in watch o) ≡ false
no_countries [] none a h = ground arith
no_countries [] (some r) a h = ground arith
no_countries (c ∷ cs) o a h = cc

-- The early return for an empty list of countries saves a query and changes nothing.
evaluate-eq :
    (rows : Rows Flow) (env : Env) (ctx : DetectorContext)
    → evaluate rows env ctx
      ≡ collect
          (λ k p. some (finding k p))
          (group key_of egress [] (rows.find_many (selects env ctx)))
unfolding evaluate group collect
evaluate-eq rows env ctx = elim (Bool-cases (is_nil (high_risk_countries env))) [
  | inl none_set ↦
      let empty =
        nil_of_none (selects env ctx) _
          (λ f.
            no_countries (high_risk_countries env) f.dst_region (in_window ctx f.occurred_at)
              none_set)
          (rows.find_many-All (selects env ctx)) in
      rw (none_set, empty)
  | inr countries_set ↦ rw countries_set
]

-- Under each device and region the detector reports exactly what the selected flows call for: MEDIUM
-- if one of them was let through and INFO otherwise, all of them as evidence, their bytes added up,
-- the other fields from the first of them, and nothing where there is no such flow.
pub high_risk_country_egress-report :
    (rows : Rows Flow) (env : Env) (ctx : DetectorContext) (key : String)
    → find_named
        (λ r. r.fingerprint)
        (append "high_risk_country_egress:" key)
        (evaluate rows env ctx)
      ≡ report key (keep (λ f. is_key key (key_of f)) (rows.find_many (selects env ctx)))
high_risk_country_egress-report rows env ctx key =
    let found = rows.find_many (selects env ctx) in
    rw (evaluate-eq rows env ctx) (
      find_named-collect-group key_of egress (λ k p. some (finding k p)) (λ r. r.fingerprint)
        "high_risk_country_egress:" finding-fingerprint found key
      ∙ absorb-report key (keep (λ f. is_key key (key_of f)) found))
