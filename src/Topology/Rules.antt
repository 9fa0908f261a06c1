-- ===== src/Topology/Rules.antt =====
-- topologyAnalyzer.ts, buildConnections: the legacy firewall rules, by rule index. `stringify` is
-- `JSON.stringify`, and the sort is stable.
use zero_proof.Base.{
  ℕ, String, Bool, true, false, ◌&&◌, ◌||◌, Option, none, some, List, [], ◌∷◌, ◌++◌, map, str_eq,
  leb, if◌then◌else◌, or_else, is_nil, concat_map,
}
use zero_proof.Base.Dict.{Dict, get}
use zero_proof.Base.Text.{to_lower_case, includes}
use zero_proof.Reachability.{text_or}
use zero_proof.Topology.{NetworkNode, FirewallRule, FirewallGroup, RuleInfo, first_text}
use zero_proof.Topology.Nodes.{find_network, resolve_network_from_group}
use zero_proof.Topology.Pairs.{Application}

-- `xs.sort((a, b) => rank(a) - rank(b))`
module _ {ℓ} {A : Type ℓ} (rank : A → ℕ) where
  pub insert_by : A → List A → List A
  insert_by a [] = a ∷ []
  insert_by a (b ∷ bs) =
      let rest = insert_by a bs in if leb (rank a) (rank b) then a ∷ b ∷ bs else b ∷ rest

  pub sort_by : List A → List A
  sort_by [] = []
  sort_by (a ∷ more) = insert_by a (sort_by more)

is_lan_rule : FirewallRule → Bool
is_lan_rule r = or_else r.enabled false && includes (to_lower_case (or_else r.rule_set "")) "lan"

pub is_rfc1918 : String → Bool
is_rfc1918 text =
    includes text "rfc1918"
    || includes text "10.0.0.0"
    || includes text "192.168."
    || includes text "172.16."

-- The networks that a side of a rule names, itself or through its groups
named_networks :
    Dict NetworkNode → Dict FirewallGroup → Option String → Option (List String) → List String
named_networks networks groups name group_ids =
    find_network networks name
    ++ concat_map (resolve_network_from_group networks groups) (or_else group_ids [])

-- A side that names none stands for all networks where the rule is about private addresses.
side_networks : List NetworkNode → Bool → List String → List String
side_networks ns private named = if private && is_nil named then map (λ n. n.id) ns else named

name_at : Dict NetworkNode → String → Option String
name_at networks id = elim (get networks id) [ none ↦ none | some n ↦ some n.name ]

rule_info : Dict NetworkNode → FirewallRule → String → String → RuleInfo
rule_info networks r src dst = record {
  name = text_or r.name "Unnamed Rule";
  action = text_or r.action "drop";
  enabled = or_else r.enabled true;
  rule_set = r.rule_set;
  rule_index = r.rule_index;
  protocol = some (text_or r.protocol "all");
  src_network = first_text r.src_network (name_at networks src);
  dst_network = first_text r.dst_network (name_at networks dst);
  dst_port = r.dst_port;
  unifi_id = first_text r.raw_id r.id;
}

pub rule_application : Dict NetworkNode → FirewallRule → String → String → Application
rule_application networks r src dst = record {
  src_id = src;
  dst_id = dst;
  allows = str_eq (text_or r.action "drop") "accept";
  info = rule_info networks r src dst;
}

module _ (stringify : FirewallRule → String) (ns : List NetworkNode) (networks : Dict NetworkNode)
    (groups : Dict FirewallGroup) where
  pub rule_sources : FirewallRule → List String
  rule_sources r =
      side_networks ns (is_rfc1918 (to_lower_case (stringify r)))
        (named_networks networks groups r.src_network r.src_firewallgroup_ids)

  pub rule_targets : FirewallRule → List String
  rule_targets r =
      side_networks ns (is_rfc1918 (to_lower_case (stringify r)))
        (named_networks networks groups r.dst_network r.dst_firewallgroup_ids)

  -- The pairs that a rule meets, in the order of the loops
  pub rule_applications : FirewallRule → List Application
  rule_applications r =
      if is_lan_rule r
      then concat_map (λ src. map (rule_application networks r src) (rule_targets r))
          (rule_sources r)
      else []

  pub all_rule_applications : List FirewallRule → List Application
  all_rule_applications rules =
      concat_map rule_applications (sort_by (λ r. or_else r.rule_index 0) rules)
