-- ===== src/Topology/Policies.antt =====
-- topologyAnalyzer.ts, buildConnections: the zone-based policies, by index.
use zero_proof.Base.{
  String, Bool, true, false, not, ◌&&◌, ◌||◌, Option, none, some, List, [], ◌∷◌, map, str_eq,
  if◌then◌else◌, or_else, keep, is_nil, concat_map,
}
use zero_proof.Base.Dict.{Dict, get}
use zero_proof.Base.Text.{to_lower_case, join}
use zero_proof.Reachability.{text_or}
use zero_proof.Topology.{
  NetworkNode, FirewallPolicy, RuleInfo, Side, MatchingTarget, network, any_target,
}
use zero_proof.Topology.Pairs.{Application}
use zero_proof.Topology.Rules.{sort_by}

is_network_target : MatchingTarget → Bool
is_network_target network = true
is_network_target _ = false

is_any_target : MatchingTarget → Bool
is_any_target any_target = true
is_any_target _ = false

-- `side.matching_target === 'NETWORK' && side.network_ids?.length`
pub has_networks : Side → Bool
has_networks s = is_network_target s.matching_target && not (is_nil (or_else s.network_ids []))

pub side_ids : List NetworkNode → Side → List String
side_ids ns s =
    if has_networks s
    then or_else s.network_ids []
    else if is_any_target s.matching_target
    then map (λ n. n.id) ns
    else []

policy_info : FirewallPolicy → NetworkNode → NetworkNode → RuleInfo
policy_info p src dst = record {
  name = text_or (some p.name) "Unnamed Policy";
  action = p.action;
  enabled = p.enabled;
  rule_set = some "Policy Engine";
  rule_index = some p.index;
  protocol = some (text_or p.protocol "all");
  src_network = some src.name;
  dst_network = some dst.name;
  dst_port = elim p.destination.port_ranges [ none ↦ none | some ps ↦ some (join ", " ps) ];
  unifi_id = some p.raw_id;
}

-- Nothing where a side is no network of the configuration
policy_application :
    FirewallPolicy → String → String → Option NetworkNode → Option NetworkNode → List Application
policy_application p src dst none to = []
policy_application p src dst (some from) none = []
policy_application p src dst (some from) (some to) =
    record {
      src_id = src;
      dst_id = dst;
      allows = str_eq (to_lower_case p.action) "allow";
      info = policy_info p from to;
    }
    ∷ []

module _ (ns : List NetworkNode) (networks : Dict NetworkNode) where
  pub policy_applications : FirewallPolicy → List Application
  policy_applications p =
      if has_networks p.source || has_networks p.destination
      then concat_map
          (λ src.
            concat_map (λ dst. policy_application p src dst (get networks src) (get networks dst))
              (side_ids ns p.destination))
          (side_ids ns p.source)
      else []

  pub all_policy_applications : List FirewallPolicy → List Application
  all_policy_applications policies =
      concat_map policy_applications
        (sort_by (λ p. p.index) (keep (λ p. p.enabled && not p.predefined) policies))
