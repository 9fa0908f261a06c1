-- ===== src/Topology/Connections.antt =====
-- topologyAnalyzer.ts, the end of buildConnections, buildWanConnections and generateWarnings.
pub mod Laws
pub mod Policy
pub mod Reverse
use zero_proof.Base.{
  String, Bool, true, false, not, ◌&&◌, ◌||◌, Option, none, some, List, [], ◌∷◌, ◌++◌, map, str_eq,
  if◌then◌else◌, or_else, or_option, is_some, any,
}
use zero_proof.Base.Dict.{Dict, get}
use zero_proof.Base.Text.{to_lower_case, includes, concat, join, show}
use zero_proof.Reachability.{
  Profile, NetworkMappings, phased, strict, deny, allow_all, WorkIsolationMode, InterVlanDefault,
}
use zero_proof.Topology.{
  NetworkNode, EnhancedConnection, BlockReason, FirewallRule, FirewallGroup, FirewallPolicy,
  L3AclIsolation, RuleInfo, first_text,
}
use zero_proof.Topology.Nodes.{network_map, build_group_map}
use zero_proof.Topology.Pairs.{Pair, get_pair_key, initial_pairs, apply_all, pairs_from}
use zero_proof.Topology.Rules.{all_rule_applications}
use zero_proof.Topology.Policies.{all_policy_applications}

-- `netId === mappings.…Id`, where the mapping may be missing
pub is_mapped : (NetworkMappings → Option String) → Profile → String → Bool
is_mapped field p id = elim p.network_mappings [
  | none ↦ false
  | some m ↦ elim (field m) [ none ↦ false | some mapped ↦ str_eq id mapped ]
]

abbrev pub is_iot : Profile → String → Bool
is_iot p id = is_mapped (λ m. m.iot_network_id) p id

abbrev pub is_guest : Profile → String → Bool
is_guest p id = is_mapped (λ m. m.guest_network_id) p id

abbrev pub is_work : Profile → String → Bool
is_work p id = is_mapped (λ m. m.work_network_id) p id

-- Isolation of one kind of network from all others: the reason, `none` where it does not apply
one_sided : (String → Bool) → String → String → String → String → Option String
one_sided is outward inward src dst =
    if is src && not (is dst)
    then some outward
    else if is dst && not (is src)
    then some inward
    else none

by_work_mode : WorkIsolationMode → Profile → String → String → Option String
by_work_mode strict p src dst =
    one_sided (is_work p) "Work strict mode blocks traffic from Work to non-Work networks"
      "Work strict mode blocks traffic from non-Work networks to Work" src dst
by_work_mode phased p src dst =
    if is_work p src && (is_iot p dst || is_guest p dst)
    then some "Work devices should be isolated from IoT/Guest"
    else if is_work p dst && (is_iot p src || is_guest p src)
    then some "Work network should not be accessible from IoT/Guest"
    else none

by_default_policy : InterVlanDefault → Option String
by_default_policy deny = some "Inter-VLAN traffic should be denied by default"
by_default_policy allow_all = none

when : Bool → Option String → Option String
when b reason = if b then reason else none

-- `shouldBeIsolated`: the reason, `none` where the pair should not be isolated
pub should_be_isolated : Option Profile → String → String → Option String
should_be_isolated none src dst = none
should_be_isolated (some p) src dst =
    or_option
      (when (p.has_iot && p.iot_isolation) (
        one_sided (is_iot p) "IoT devices should be isolated" "IoT network should not be accessible"
          src dst))
      (or_option
        (when (p.guest_network && p.guest_isolation) (
          one_sided (is_guest p) "Guest network should be isolated"
            "Guest network should not be accessible" src dst))
        (or_option
          (when (p.work_from_home && p.work_device_isolation)
            (by_work_mode (or_else p.work_isolation_mode phased) p src dst))
          (by_default_policy p.inter_vlan_default)))

-- `pair?.forwardAllowed ?? true`
pub allowed_by_rule : Option Pair → Bool
allowed_by_rule none = true
allowed_by_rule (some p) = or_else p.forward_allowed true

pub is_blocked_pair : Option Pair → Bool
is_blocked_pair none = false
is_blocked_pair (some p) = p.blocked_by_isolation

-- `pair?.forwardAllowed !== null`, which holds of a pair that is missing
has_explicit_rule : Option Pair → Bool
has_explicit_rule none = true
has_explicit_rule (some p) = is_some p.forward_allowed

rules_of : Option Pair → List RuleInfo
rules_of none = []
rules_of (some p) = p.rules

pair_source : Option Pair → Option String
pair_source none = none
pair_source (some p) = p.isolation_source

block_reason_of : (by_rule isolated : Bool) → Option BlockReason
block_reason_of false true = some BlockReason.both
block_reason_of true true = some BlockReason.isolation
block_reason_of false false = some BlockReason.firewall
block_reason_of true false = none

-- One round of the last loop
pub connection_between :
    Option Profile
    → NetworkNode
    → NetworkNode
    → (forward reverse : Option Pair) → EnhancedConnection
connection_between profile src dst forward reverse =
    let isolated = is_blocked_pair forward || is_blocked_pair reverse in
    let allowed = allowed_by_rule forward && not isolated in
    let reason = should_be_isolated profile src.id dst.id in
    record {
      src_id = src.id;
      dst_id = dst.id;
      src_name = src.name;
      dst_name = dst.name;
      allowed = allowed;
      bidirectional =
          if allowed
          then allowed_by_rule reverse && not isolated
          else not (allowed_by_rule reverse && not isolated);
      rules = rules_of forward;
      allowed_by_default = not (has_explicit_rule forward) && not isolated && allowed;
      violates_intent = is_some reason && allowed;
      intent_reason = if is_some reason && allowed then reason else none;
      blocked_by_isolation = isolated;
      block_reason = if allowed then none else block_reason_of (allowed_by_rule forward) isolated;
      isolation_source = first_text (pair_source forward) (pair_source reverse);
    }

pub connection_in : Dict Pair → Option Profile → NetworkNode → NetworkNode → EnhancedConnection
connection_in pairs profile src dst =
    connection_between profile src dst (get pairs (get_pair_key src.id dst.id))
      (get pairs (get_pair_key dst.id src.id))

connections_of :
    Dict Pair → Option Profile → List (NetworkNode × NetworkNode) → List EnhancedConnection
connections_of pairs profile [] = []
connections_of pairs profile ((src, dst) ∷ more) =
    let rest = connections_of pairs profile more in
    if str_eq src.id dst.id then rest else connection_in pairs profile src dst ∷ rest

module _ (stringify : FirewallRule → String) where
  -- `pairRules` after all rules and policies
  pub pair_rules :
      List NetworkNode
      → List FirewallRule
      → List FirewallPolicy
      → List FirewallGroup
      → List L3AclIsolation
      → Dict Pair
  pair_rules ns rules policies groups acl =
      apply_all
        (apply_all (initial_pairs ns acl)
          (all_rule_applications stringify ns (network_map ns) (build_group_map groups) rules))
        (all_policy_applications ns (network_map ns) policies)

  pub build_connections :
      List NetworkNode
      → List FirewallRule
      → List FirewallPolicy
      → List FirewallGroup
      → Option Profile
      → List L3AclIsolation
      → List EnhancedConnection
  build_connections ns rules policies groups profile acl =
      connections_of (pair_rules ns rules policies groups acl) profile (pairs_from ns ns)

is_wan_block : NetworkNode → FirewallRule → Bool
is_wan_block net r =
    or_else r.enabled false
    && (elim r.action [ none ↦ false | some a ↦ str_eq a "drop" || str_eq a "reject" ])
    && includes (to_lower_case (or_else r.rule_set "")) "wan"
    && (elim r.src_network [ none ↦ false | some s ↦ str_eq s net.name || str_eq s net.id ])

pub wan_connection : List FirewallRule → NetworkNode → EnhancedConnection
wan_connection rules net = record {
  src_id = net.id;
  dst_id = "WAN";
  src_name = net.name;
  dst_name = "Internet";
  allowed = not (any (is_wan_block net) rules);
  bidirectional = false;
  rules = [];
  allowed_by_default = not (any (is_wan_block net) rules);
  violates_intent = false;
  intent_reason = none;
  blocked_by_isolation = false;
  block_reason = none;
  isolation_source = none;
}

pub build_wan_connections : List NetworkNode → List FirewallRule → List EnhancedConnection
build_wan_connections ns rules = map (wan_connection rules) ns

module _ (stringify : FirewallRule → String) where
  -- The connections that `analyzeTopology` returns
  pub topology_connections :
      List NetworkNode
      → List FirewallRule
      → List FirewallPolicy
      → List FirewallGroup
      → Option Profile
      → List L3AclIsolation
      → List EnhancedConnection
  topology_connections ns rules policies groups profile acl =
      build_connections stringify ns rules policies groups profile acl
      ++ build_wan_connections ns rules
