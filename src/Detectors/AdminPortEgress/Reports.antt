-- ===== src/Detectors/AdminPortEgress/Reports.antt =====
-- What admin_port_egress reports: one finding for each device and port, made of all its flows.
use zero_proof.Base.{
  String, ◌≡◌, refl, Bool, true, false, not, Option, none, some, List, [], ◌∷◌, map, ◌∙◌, any, keep,
  if◌then◌else◌, arith, Bool-cases, is_nil, inl, inr, ℕ, ◌&&◌, is_some,
}
use zero_proof.Base.Dict.{find_named, DistinctNames, values}
use zero_proof.Base.Groups.{is_key, absorb, group, find_named-group, group-DistinctNames}
use zero_proof.Detection.{DetectionResult, DetectorContext, high, low, in_window}
use zero_proof.Detectors.{Flow, Rows, Env, is_blocked, flow_evidence}
use zero_proof.Detectors.Merging.{extended, absorb-extended, nil_of_none}
use zero_proof.Detectors.AdminPortEgress.{
  evaluate, attempt, first_attempt, key_of, selects, severity_for, admin_ports, port_in,
}

-- The finding that a list of flows of one device and port calls for
abbrev pub report : List Flow → Option DetectionResult
report [] = none
report (f ∷ fs) = some (record (first_attempt f) {
  severity = if any (λ g. not (is_blocked g.action)) (f ∷ fs) then high else low;
  evidence = map flow_evidence (f ∷ fs);
})

abbrev allowed : Flow → Bool
allowed f = not (is_blocked f.action)

attempt-again :
    (r : DetectionResult) (f : Flow) → attempt (some r) f ≡ extended high allowed r (f ∷ [])
unfolding attempt severity_for
attempt-again r f = ground arith

absorb-report : (fs : List Flow) → absorb key_of attempt none fs ≡ report fs
unfolding attempt severity_for
absorb-report [] = refl
absorb-report (f ∷ fs) =
    absorb-extended high allowed key_of attempt attempt-again (first_attempt f) fs ∙ ground arith

attempt-fingerprint :
    (o : Option DetectionResult) (f : Flow) (k : String)
    → key_of f ≡ some k
    → ((r : DetectionResult) → o ≡ some r → r.fingerprint ≡ k)
    → (attempt o f).fingerprint ≡ k
unfolding attempt
attempt-fingerprint none f k e h = rw e
attempt-fingerprint (some r) f k e h = h r refl

no_ports :
    (ports : List ℕ) (o : Option ℕ) (a b : Bool)
    → is_nil ports ≡ true
    → (a && port_in ports o && b) ≡ false
no_ports [] none a b h = ground arith
no_ports [] (some n) a b h = ground arith
no_ports (p ∷ ps) o a b h = cc

-- The early return for an empty list of ports saves a query and changes nothing.
evaluate-eq :
    (rows : Rows Flow) (env : Env) (ctx : DetectorContext)
    → evaluate rows env ctx ≡ values (group key_of attempt [] (rows.find_many (selects env ctx)))
unfolding evaluate group values
evaluate-eq rows env ctx = elim (Bool-cases (is_nil (admin_ports env))) [
  | inl none_set ↦
      let empty =
        nil_of_none (selects env ctx) _
          (λ f.
            no_ports (admin_ports env) f.dst_port (in_window ctx f.occurred_at) (is_some f.dst_ip)
              none_set)
          (rows.find_many-All (selects env ctx)) in
      rw (none_set, empty)
  | inr ports_set ↦ rw ports_set
]

-- Under each fingerprint the detector reports exactly what the selected flows with that fingerprint
-- call for, HIGH if one of them was let through and LOW otherwise, and no two findings share a
-- fingerprint.
pub admin_port_egress-report :
    (rows : Rows Flow) (env : Env) (ctx : DetectorContext) (fp : String)
    → (find_named (λ r. r.fingerprint) fp (evaluate rows env ctx)
        ≡ report (keep (λ f. is_key fp (key_of f)) (rows.find_many (selects env ctx))))
      × DistinctNames (λ r. r.fingerprint) (evaluate rows env ctx)
admin_port_egress-report rows env ctx fp =
    let found = rows.find_many (selects env ctx) in
    rw (evaluate-eq rows env ctx) (
      find_named-group key_of attempt (λ r. r.fingerprint) attempt-fingerprint found fp
          ∙ absorb-report _,
      group-DistinctNames key_of attempt (λ r. r.fingerprint) attempt-fingerprint found,
    )
