-- ===== src/Reachability/Decision/Laws.antt =====
-- The decision by what is known.
use zero_proof.Base.{ℕ, String, ◌≡◌, refl, Bool, true, false, Option, none, some}
use zero_proof.Reachability.{Category, Expected, allow, block, unknown}
use zero_proof.Reachability.Intent.{IntentDecision}
use zero_proof.Reachability.Decision.{
  Decision, Evidence, PolicySource, hybrid, intent, effective, to_decision, evidence_expected,
}

-- The expectation, whether there is a conflict, the confidence and the source, by what the intent
-- expects and what the controller was inferred to do
abbrev pub verdict : Expected → Expected → Expected × Bool × ℕ × PolicySource
verdict unknown unknown = (unknown, false, 20, hybrid)
verdict unknown allow = (allow, false, 70, effective)
verdict unknown block = (block, false, 70, effective)
verdict allow unknown = (allow, false, 72, intent)
verdict block unknown = (block, false, 72, intent)
verdict allow allow = (allow, false, 95, hybrid)
verdict block block = (block, false, 95, hybrid)
verdict allow block = (allow, true, 45, PolicySource.conflict)
verdict block allow = (block, true, 45, PolicySource.conflict)

abbrev pub outcome_of : Decision → Expected × Bool × ℕ × PolicySource
outcome_of d = (d.expected, d.conflict, d.confidence, d.policy_source)

-- The verdict, and the two expectations as they are recorded
abbrev Follows : Decision → Expected → Expected → Type 0
Follows d x y = (outcome_of d ≡ verdict x y) × (d.intent_expected ≡ x) × (d.effective_expected ≡ y)

by_verdict :
    (a b : String) (s t : Category) (x y : Expected) (why reason : String) (explicit : Bool)
    → Follows
        (to_decision a b s t
          (record { expected = x; reason = why })
          (some (record { expected = y; reason = reason; explicit = explicit })))
        x
        y
unfolding to_decision
by_verdict a b s t allow allow why reason explicit = (refl, refl, refl)
by_verdict a b s t block allow why reason explicit = (refl, refl, refl)
by_verdict a b s t unknown allow why reason explicit = (refl, refl, refl)
by_verdict a b s t _ _ why reason explicit = (refl, refl, refl)

by_intent :
    (a b : String) (s t : Category) (x : Expected) (why : String)
    → Follows (to_decision a b s t (record { expected = x; reason = why }) none) x unknown
unfolding to_decision
by_intent a b s t allow why = (refl, refl, refl)
by_intent a b s t _ why = (refl, refl, refl)

-- The intent decides where it is known and the inferred behaviour where only that is known; a
-- conflict is flagged exactly where both are known and differ; agreement has the most confidence,
-- then intent alone, inferred behaviour alone, conflict, and no evidence.
pub to_decision-verdict :
    (a b : String) (s t : Category) (i : IntentDecision) (e : Option Evidence)
    → (outcome_of (to_decision a b s t i e) ≡ verdict i.expected (evidence_expected e))
      × ((to_decision a b s t i e).intent_expected ≡ i.expected)
      × ((to_decision a b s t i e).effective_expected ≡ evidence_expected e)
to_decision-verdict a b s t i none = by_intent a b s t i.expected i.reason
to_decision-verdict a b s t i (some e) =
    by_verdict a b s t i.expected e.expected i.reason e.reason e.explicit
