-- ===== src/Reachability/Evaluator.antt =====
-- reachabilityPolicyService.ts, createReachabilityPolicyEvaluator. The connections are those of the
-- topology of the configuration, none where there is no configuration.
pub mod Laws
use zero_proof.Base.{String, Option, List, or_else}
use zero_proof.Base.Dict.{Dict, get}
use zero_proof.Reachability.{Category, default, Profile}
use zero_proof.Reachability.Categories.{PolicyNetworkInfo, build_category_map}
use zero_proof.Reachability.Intent.{compute_intent_expectation}
use zero_proof.Reachability.Effective.{Connection, build_effective_reachability_map, path_key}
use zero_proof.Reachability.Decision.{Decision, Evidence, to_decision}

pub record Evaluator : Type 0 where
  pub profile : Option Profile
  pub category_map : Dict Category
  pub effective_map : Dict Evidence

unfoldable pub create_evaluator :
    List Connection → Option Profile → List PolicyNetworkInfo → Evaluator
create_evaluator connections profile networks = record {
  profile = profile;
  category_map = build_category_map networks profile;
  effective_map = build_effective_reachability_map connections;
}

unfoldable pub get_category : Evaluator → String → Category
get_category e id = or_else (get e.category_map id) default

pub evaluate : Evaluator → (source_id target_id : String) → Decision
unfolding get_category
evaluate e source_id target_id =
    let source = get_category e source_id in
    let target = get_category e target_id in
    to_decision source_id target_id source target
      (compute_intent_expectation source target e.profile)
      (get e.effective_map (path_key source_id target_id))
