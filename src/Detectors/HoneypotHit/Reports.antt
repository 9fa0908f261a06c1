-- ===== src/Detectors/HoneypotHit/Reports.antt =====
-- What honeypot_hit reports: one finding for each source and target, made of all its flows.
use zero_proof.Base.{
  String, Bool, true, false, ◌≡◌, refl, Option, none, some, List, [], ◌∷◌, map, ◌∙◌, any, keep,
  arith, is_nil, ◌&&◌, inl, inr, Bool-cases,
}
use zero_proof.Base.Dict.{find_named, DistinctNames, values}
use zero_proof.Base.Groups.{is_key, absorb, find_named-group, group-DistinctNames, group}
use zero_proof.Detection.{DetectionResult, DetectorContext, critical, in_window}
use zero_proof.Detectors.{Flow, Rows, Env, flow_evidence}
use zero_proof.Detectors.Merging.{extended, absorb-extended, nil_of_none}
use zero_proof.Detectors.HoneypotHit.{
  evaluate, hit, first_hit, fingerprint_of, selects, csv_from_env, is_target,
}

abbrev key_of : Flow → Option String
key_of f = some (fingerprint_of f)

-- The finding that a list of flows from one source to one target calls for
abbrev pub report : List Flow → Option DetectionResult
report [] = none
report (f ∷ fs) =
    some (record (first_hit f) { severity = critical; evidence = map flow_evidence (f ∷ fs) })

abbrev never : Flow → Bool
never f = false

any-never : (fs : List Flow) → any never fs ≡ false
any-never [] = refl
any-never (f ∷ fs) = any-never fs

hit-again : (r : DetectionResult) (f : Flow) → hit (some r) f ≡ extended critical never r (f ∷ [])
unfolding hit
hit-again r f = refl

absorb-report : (fs : List Flow) → absorb key_of hit none fs ≡ report fs
unfolding hit
absorb-report [] = refl
absorb-report (f ∷ fs) =
    absorb-extended critical never key_of hit hit-again (first_hit f) fs
    ∙ ground (arith, any-never fs)

hit-fingerprint :
    (o : Option DetectionResult) (f : Flow) (k : String)
    → key_of f ≡ some k
    → ((r : DetectionResult) → o ≡ some r → r.fingerprint ≡ k)
    → (hit o f).fingerprint ≡ k
unfolding hit
hit-fingerprint none f k e h = cc
hit-fingerprint (some r) f k e h = h r refl

no_targets :
    (ips macs : List String) (f : Flow) (a : Bool)
    → (is_nil ips && is_nil macs) ≡ true
    → (a && is_target ips macs f) ≡ false
no_targets [] [] f a h = ground arith
no_targets [] (m ∷ ms) f a h = cc
no_targets (i ∷ is) macs f a h = cc

-- The early return without honeypots saves a query and changes nothing.
evaluate-eq :
    (rows : Rows Flow) (env : Env) (ctx : DetectorContext)
    → evaluate rows env ctx ≡ values (group key_of hit [] (rows.find_many (selects env ctx)))
unfolding evaluate group values
evaluate-eq rows env ctx =
    let ips = csv_from_env env "HONEYPOT_IPS" in
    let macs = csv_from_env env "HONEYPOT_MACS" in
    elim (Bool-cases (is_nil ips && is_nil macs)) [
      | inl none_set ↦
          let empty =
            nil_of_none (selects env ctx) _
              (λ f. no_targets ips macs f (in_window ctx f.occurred_at) none_set)
              (rows.find_many-All (selects env ctx)) in
          rw (none_set, empty)
      | inr some_set ↦ rw some_set
    ]

-- Under each fingerprint the detector reports exactly one CRITICAL finding whose evidence is all
-- selected flows with that fingerprint, none where there is no such flow, and no two findings share a
-- fingerprint.
pub honeypot_hit-report :
    (rows : Rows Flow) (env : Env) (ctx : DetectorContext) (fp : String)
    → (find_named (λ r. r.fingerprint) fp (evaluate rows env ctx)
        ≡ report (keep (λ f. is_key fp (key_of f)) (rows.find_many (selects env ctx))))
      × DistinctNames (λ r. r.fingerprint) (evaluate rows env ctx)
honeypot_hit-report rows env ctx fp =
    let found = rows.find_many (selects env ctx) in
    rw (evaluate-eq rows env ctx) (
      find_named-group key_of hit (λ r. r.fingerprint) hit-fingerprint found fp ∙ absorb-report _,
      group-DistinctNames key_of hit (λ r. r.fingerprint) hit-fingerprint found,
    )
