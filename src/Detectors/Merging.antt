-- ===== src/Detectors/Merging.antt =====
-- The loop of the detectors that merge flows into one finding for each fingerprint, by fold.
use zero_proof.Base.{
  String, ◌≡◌, refl, Bool, true, false, Option, some, List, [], ◌∷◌, ◌++◌, map, ◌∙◌, any, All,
  if◌then◌else◌, arith, ap, sym,
}
use mathlib.Core.List.{append_assoc, append-nil}
use zero_proof.Base.Groups.{absorb}
use zero_proof.Detection.{DetectionResult, Severity}
use zero_proof.Detectors.{Flow, flow_evidence}

-- A finding with the evidence of more flows, at `top` severity if one of them calls for it
abbrev pub extended : Severity → (Flow → Bool) → DetectionResult → List Flow → DetectionResult
extended top tops r fs = record r {
  severity = if any tops fs then top else r.severity;
  evidence = r.evidence ++ map flow_evidence fs;
}

module _ (top : Severity) (tops : Flow → Bool) where
  extended-nil : (r : DetectionResult) → extended top tops r [] ≡ r
  extended-nil r = ap (λ e. record r { evidence = e }) (append-nil r.evidence)

  extended-cons :
      (r : DetectionResult) (f : Flow) (fs : List Flow)
      → extended top tops (extended top tops r (f ∷ [])) fs ≡ extended top tops r (f ∷ fs)
  extended-cons r f fs =
      ground (arith, append_assoc r.evidence (flow_evidence f ∷ []) (map flow_evidence fs))

  module _ (key : Flow → Option String) (grow : Option DetectionResult → Flow → DetectionResult)
      (step : (r : DetectionResult) (f : Flow)
        → grow (some r) f ≡ extended top tops r (f ∷ [])) where
    pub absorb-extended :
        (r : DetectionResult) (fs : List Flow)
        → absorb key grow (some r) fs ≡ some (extended top tops r fs)
    absorb-extended r [] = ap some (sym (extended-nil r))
    absorb-extended r (f ∷ fs) =
        absorb-extended (grow (some r) f) fs ∙ ap some (rw (step r f) (extended-cons r f fs))

-- A query whose clause no row meets returns nothing.
pub nil_of_none :
    (p : Flow → Bool) (fs : List Flow)
    → ((f : Flow) → p f ≡ false)
    → All (λ f. p f ≡ true) fs
    → fs ≡ []
nil_of_none p [] none_meets h = refl
nil_of_none p (f ∷ fs) none_meets h = cc (none_meets f, h.0)
