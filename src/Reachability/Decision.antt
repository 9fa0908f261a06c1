-- ===== src/Reachability/Decision.antt =====
-- reachabilityPolicyService.ts, toDecision: the intent weighed against the inferred behaviour.
-- `confidence` is in hundredths.
pub mod Laws
use zero_proof.Base.{
  ℕ, String, Bool, true, false, not, ◌&&◌, Option, none, some, [], ◌∷◌, if◌then◌else◌,
}
use zero_proof.Base.Text.{concat}
use zero_proof.Reachability.{Category, Expected, allow, block, unknown, text_or}
use zero_proof.Reachability.Intent.{IntentDecision}

pub data PolicySource : Type 0 where
  intent effective hybrid conflict : PolicySource

pub record Evidence : Type 0 where
  pub expected : Expected
  pub reason : String
  pub explicit : Bool

-- `ReachabilityPolicyDecision`
pub record Decision : Type 0 where
  pub source_network_id : String
  pub target_network_id : String
  pub source_category : Category
  pub target_category : Category
  pub expected : Expected
  pub intent_expected : Expected
  pub effective_expected : Expected
  pub conflict : Bool
  pub confidence : ℕ
  pub reason : String
  pub intent_reason : String
  pub effective_reason : String
  pub effective_explicit : Bool
  pub policy_source : PolicySource

-- `${expected}`
expected_text : Expected → String
expected_text allow = "allow"
expected_text block = "block"
expected_text unknown = "unknown"

same_expected : Expected → Expected → Bool
same_expected allow allow = true
same_expected block block = true
same_expected unknown unknown = true
same_expected _ _ = false

is_known : Expected → Bool
is_known unknown = false
is_known _ = true

abbrev pub evidence_expected : Option Evidence → Expected
evidence_expected none = unknown
evidence_expected (some e) = e.expected

evidence_reason : Option Evidence → String
evidence_reason none = "No inferred effective policy evidence."
evidence_reason (some e) = text_or (some e.reason) "No inferred effective policy evidence."

evidence_explicit : Option Evidence → Bool
evidence_explicit none = false
evidence_explicit (some e) = e.explicit

-- `toDecision`
pub to_decision :
    (source_id target_id : String) (source target : Category)
    → IntentDecision
    → Option Evidence
    → Decision
unfolding expected_text same_expected is_known evidence_reason evidence_explicit
to_decision source_id target_id source target i e =
    let eff = evidence_expected e in
    let why = evidence_reason e in
    let made : Expected → Bool → ℕ → String → PolicySource → Decision =
      λ expected clash confidence reason from. record {
        source_network_id = source_id;
        target_network_id = target_id;
        source_category = source;
        target_category = target;
        expected = expected;
        intent_expected = i.expected;
        effective_expected = eff;
        conflict = clash;
        confidence = confidence;
        reason = reason;
        intent_reason = i.reason;
        effective_reason = why;
        effective_explicit = evidence_explicit e;
        policy_source = from;
      } in
    if is_known i.expected && is_known eff && not (same_expected i.expected eff)
    then made i.expected true 45
        (concat (
          "Intent expects "
          ∷ expected_text i.expected
          ∷ " ("
          ∷ i.reason
          ∷ "), but inferred UniFi behavior is "
          ∷ expected_text eff
          ∷ " ("
          ∷ why
          ∷ ")."
          ∷ []))
        PolicySource.conflict
    else if is_known i.expected && is_known eff
    then made i.expected false 95
        (concat (i.reason ∷ " Effective UniFi behavior agrees: " ∷ why ∷ [])) hybrid
    else if is_known i.expected
    then made i.expected false 72 i.reason intent
    else if is_known eff
    then made eff false 70 (concat ("Derived from inferred UniFi effective policy: " ∷ why ∷ []))
        effective
    else made unknown false 20 "No intent or effective policy evidence for this path." hybrid
