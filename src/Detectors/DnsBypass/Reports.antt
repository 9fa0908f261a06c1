-- ===== src/Detectors/DnsBypass/Reports.antt =====
-- What dns_bypass reports: one finding for each device and resolver, made of all its flows.
use zero_proof.Base.{
  String, Bool, ◌≡◌, refl, not, Option, none, some, List, [], ◌∷◌, map, ◌∙◌, any, keep,
  if◌then◌else◌, arith,
}
use zero_proof.Base.Dict.{find_named, DistinctNames}
use zero_proof.Base.Groups.{is_key, absorb, find_named-group, group-DistinctNames}
use zero_proof.Detection.{DetectionResult, DetectorContext, medium, info}
use zero_proof.Detectors.{Flow, Rows, Env, is_blocked, flow_evidence}
use zero_proof.Detectors.Merging.{extended, absorb-extended}
use zero_proof.Detectors.DnsBypass.{
  evaluate, query, first_query, key_of, selects, severity_for, known_resolvers,
}

abbrev passed : Flow → Bool
passed f = not (is_blocked f.action)

-- The finding that a list of flows of one device to one resolver calls for
abbrev pub report : List String → List Flow → Option DetectionResult
report allowed [] = none
report allowed (f ∷ fs) = some (record (first_query allowed f) {
  severity = if any (λ g. not (is_blocked g.action)) (f ∷ fs) then medium else info;
  evidence = map flow_evidence (f ∷ fs);
})

module _ (allowed : List String) where
  query-again :
      (r : DetectionResult) (f : Flow)
      → query allowed (some r) f ≡ extended medium passed r (f ∷ [])
  unfolding query severity_for
  query-again r f = ground arith

  absorb-report :
      (fs : List Flow) → absorb (key_of allowed) (query allowed) none fs ≡ report allowed fs
  unfolding query severity_for
  absorb-report [] = refl
  absorb-report (f ∷ fs) =
      absorb-extended medium passed (key_of allowed) (query allowed) query-again
        (first_query allowed f) fs
      ∙ ground arith

  query-fingerprint :
      (o : Option DetectionResult) (f : Flow) (k : String)
      → key_of allowed f ≡ some k
      → ((r : DetectionResult) → o ≡ some r → r.fingerprint ≡ k)
      → (query allowed o f).fingerprint ≡ k
  unfolding query
  query-fingerprint none f k e h = rw e
  query-fingerprint (some r) f k e h = h r refl

-- Under each fingerprint the detector reports exactly what the selected flows with that fingerprint
-- call for, MEDIUM if one of them was let through and INFO otherwise, and no two findings share a
-- fingerprint.
pub dns_bypass-report :
    (rows : Rows Flow) (env : Env) (ctx : DetectorContext) (fp : String)
    → (find_named (λ r. r.fingerprint) fp (evaluate rows env ctx)
        ≡ report
            (known_resolvers env)
            (keep (λ f. is_key fp (key_of (known_resolvers env) f)) (rows.find_many (selects ctx))))
      × DistinctNames (λ r. r.fingerprint) (evaluate rows env ctx)
unfolding evaluate
dns_bypass-report rows env ctx fp =
    let allowed = known_resolvers env in
    let found = rows.find_many (selects ctx) in
    (
      find_named-group (key_of allowed) (query allowed) (λ r. r.fingerprint)
            (query-fingerprint allowed) found fp
          ∙ absorb-report allowed _,
      group-DistinctNames (key_of allowed) (query allowed) (λ r. r.fingerprint)
          (query-fingerprint allowed) found,
    )
