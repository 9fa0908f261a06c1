-- ===== src/Rules/Findings/Laws.antt =====
-- The loop over the items as a pipeline.
use zero_proof.Base.{
  ◌≡◌, refl, ap, inl, inr, Bool, Option, none, some, List, [], ◌∷◌, map, if◌then◌else◌, Bool-cases,
  or_else, is_some, keep,
}
use zero_proof.Rules.Value.{Fields, obj, no_fields}
use zero_proof.Rules.Conditions.{Regex, evaluate_condition}
use zero_proof.Rules.Rule.{SecurityRule, RuleCheckResult}
use zero_proof.Rules.Findings.{check_result, findings_from, item_context, report_before}

-- The items before the first error
abbrev pub before_error : (Fields → Bool) → List Fields → List Fields
before_error fine [] = []
before_error fine (i ∷ is) = if fine i then i ∷ before_error fine is else []

module _ (regex : Regex) (r : SecurityRule) (context : Fields) where
  abbrev pub matches : Fields → Bool
  matches i = evaluate_condition regex (some (obj context)) (obj i) r.detection.condition

  abbrev pub is_fine : Fields → Bool
  is_fine i = is_some (item_context r.sensitive_ports context i)

  abbrev pub reported : Fields → RuleCheckResult
  reported i =
      check_result r.detection.output i
        (or_else (item_context r.sensitive_ports context i) no_fields)

  loop_at :
      (i : Fields) (later : List RuleCheckResult) (more : List Fields) (o : Option Fields)
      → later ≡ map reported (before_error is_fine more)
      → item_context r.sensitive_ports context i ≡ o
      → report_before r.detection.output i o later
        ≡ map reported (if is_fine i then i ∷ before_error is_fine more else [])
  unfolding report_before
  loop_at i later more none h e = rw e refl
  loop_at i later more (some own_context) h e =
      let same : reported i ≡ check_result r.detection.output i own_context =
        ap (λ o. check_result r.detection.output i (or_else o no_fields)) e in
      rw e (rw (same, h) refl)

  pub findings_from-reported :
      (items : List Fields)
      → findings_from regex r context items
        ≡ map reported (before_error is_fine (keep matches items))
  unfolding findings_from
  findings_from-reported [] = refl
  findings_from-reported (i ∷ is) = elim (Bool-cases (matches i)) [
    | inl h ↦ rw h (
        loop_at i (findings_from regex r context is) (keep matches is)
          (item_context r.sensitive_ports context i) (findings_from-reported is) refl)
    | inr h ↦ rw h (findings_from-reported is)
  ]
