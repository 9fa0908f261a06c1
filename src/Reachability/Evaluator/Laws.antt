-- ===== src/Reachability/Evaluator/Laws.antt =====
-- What an evaluator answers, from the networks, the profile and the connections it was created with.
use zero_proof.Base.{String, ◌≡◌, refl, ap, ◌∙◌, ◌≢◌, Option, none, some, List, or_else, keep}
use zero_proof.Base.Groups.{is_key, last_value, get-group_last}
use zero_proof.Reachability.{Category, default, Expected, block, Profile}
use zero_proof.Reachability.Categories.{
  PolicyNetworkInfo, build_category_map, mapped_category, mappings_of, network_key,
}
use zero_proof.Reachability.Intent.{compute_intent_expectation, find_override}
use zero_proof.Reachability.Intent.Table.{IsIsolated, isolation-holds}
use zero_proof.Reachability.Effective.{
  Connection, build_effective_reachability_map, path_key, evidence_of, key_of,
}
use zero_proof.Reachability.Decision.{evidence_expected}
use zero_proof.Reachability.Decision.Laws.{to_decision-verdict, verdict}
use zero_proof.Base.Dict.{get}
use zero_proof.Reachability.Evaluator.{create_evaluator, evaluate, get_category}

-- The category of an id is that of the last network with that id, by the profile's mappings and then
-- by its name, and `default` without one.
pub get_category-last :
    (cs : List Connection) (p : Option Profile) (ns : List PolicyNetworkInfo) (id : String)
    → get_category (create_evaluator cs p ns) id
      ≡ or_else
          (last_value network_key
            (mapped_category (mappings_of p))
            none
            (keep (λ n. is_key id (network_key n)) ns))
          default
unfolding get_category create_evaluator build_category_map
get_category-last cs p ns id =
    ap (λ o. or_else o default) (get-group_last network_key (mapped_category (mappings_of p)) ns id)

-- The inferred behaviour of a path is that of its last connection that does not touch the WAN.
pub evaluate-effective :
    (cs : List Connection) (p : Option Profile) (ns : List PolicyNetworkInfo) (a b : String)
    → (evaluate (create_evaluator cs p ns) a b).effective_expected
      ≡ evidence_expected
          (last_value key_of evidence_of none (keep (λ c. is_key (path_key a b) (key_of c)) cs))
unfolding evaluate create_evaluator build_effective_reachability_map
evaluate-effective cs p ns a b =
    let e = create_evaluator cs p ns in
    let s = get_category e a in
    let t = get_category e b in
    (to_decision-verdict a b s t (compute_intent_expectation s t p)
      (get e.effective_map (path_key a b))).2
    ∙ ap evidence_expected (get-group_last key_of evidence_of cs (path_key a b))

blocked : (y : Expected) → (verdict block y).0 ≡ block
blocked Expected.allow = refl
blocked Expected.block = refl
blocked Expected.unknown = refl

-- Whatever the controller was inferred to do, an evaluator expects traffic into a network of an
-- isolated category to be blocked, from every network of another category without an override.
pub evaluate-isolation :
    (cs : List Connection) (p : Profile) (ns : List PolicyNetworkInfo) (a b : String) (c : Category)
    → get_category (create_evaluator cs (some p) ns) b ≡ c
    → IsIsolated p c
    → get_category (create_evaluator cs (some p) ns) a ≢ c
    → find_override p (get_category (create_evaluator cs (some p) ns) a) c ≡ none
    → find_override p c (get_category (create_evaluator cs (some p) ns) a) ≡ none
    → (evaluate (create_evaluator cs (some p) ns) a b).expected ≡ block
unfolding evaluate create_evaluator
evaluate-isolation cs p ns a b c at isolated other no_in no_out =
    let e = create_evaluator cs (some p) ns in
    let s = get_category e a in
    let found = get e.effective_map (path_key a b) in
    let i = compute_intent_expectation s c (some p) in
    let says : i.expected ≡ block = (isolation-holds p c s isolated other no_in no_out).0 in
    rw at (
      ap (λ o. o.0) (to_decision-verdict a b s c i found).0
      ∙ rw says (blocked (evidence_expected found)))
