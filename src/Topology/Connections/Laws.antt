-- ===== src/Topology/Connections/Laws.antt =====
-- What decides a connection: isolation first, then the first rule that meets the pair.
use zero_proof.Base.{
  String, ◌≡◌, refl, sym, ◌≢◌, Bool, true, not, ◌&&◌, ◌||◌, Option, some, List, arith, or_else,
  or_option, keep,
}
use zero_proof.Base.Dict.{get}
use zero_proof.Topology.Pairs.Start.{
  get-initial_pairs, blocked-initial_pair, undecided-initial_pair,
}
use zero_proof.Reachability.{Profile}
use zero_proof.Topology.{NetworkNode, FirewallRule, FirewallGroup, FirewallPolicy, L3AclIsolation}
use zero_proof.Topology.Nodes.{network_map, build_group_map}
use zero_proof.Topology.Pairs.{Application, get_pair_key, initial_pairs, initial_pair}
use zero_proof.Topology.Pairs.Laws.{
  get-apply_all, amended, amended-verdict, amended-blocked, first_verdict, is_about,
}
use zero_proof.Topology.Pairs.Isolation.{IsFound, acl_lists}
use zero_proof.Topology.Connections.{
  pair_rules, connection_in, connection_between, allowed_by_rule, is_blocked_pair,
}
use zero_proof.Topology.Rules.{all_rule_applications}
use zero_proof.Topology.Policies.{all_policy_applications}

-- Either network has isolation on, or the switch blocks one of the two directions.
abbrev pub is_isolated : List L3AclIsolation → NetworkNode → NetworkNode → Bool
is_isolated acl a b =
    a.network_isolation || b.network_isolation || acl_lists acl a.id b.id || acl_lists acl b.id a.id

module _ (stringify : FirewallRule → String) (ns : List NetworkNode) (rules : List FirewallRule)
    (policies : List FirewallPolicy) (groups : List FirewallGroup) where
  -- The legacy rules and the policies that meet the pair, in their order
  abbrev pub rules_about : String → List Application
  rules_about k =
      keep (is_about k)
        (all_rule_applications stringify ns (network_map ns) (build_group_map groups) rules)

  abbrev pub policies_about : String → List Application
  policies_about k = keep (is_about k) (all_policy_applications ns (network_map ns) policies)

  -- What the rules say of a pair: the first legacy rule, else the first policy, else yes
  abbrev pub verdict : NetworkNode → NetworkNode → Bool
  verdict a b =
      let k = get_pair_key a.id b.id in
      or_else (or_option (first_verdict (rules_about k)) (first_verdict (policies_about k))) true

  module _ (acl : List L3AclIsolation) (a b : NetworkNode) (ha : IsFound ns a) (hb : IsFound ns b)
      (differ : a.id ≢ b.id) where
    pub get-pair_rules :
        get (pair_rules stringify ns rules policies groups acl) (get_pair_key a.id b.id)
        ≡ some (
            amended
              (amended (initial_pair acl (a, b)) (rules_about (get_pair_key a.id b.id)))
              (policies_about (get_pair_key a.id b.id)))
    unfolding pair_rules
    get-pair_rules = rw (
      get-apply_all _ (all_policy_applications ns (network_map ns) policies)
          (get_pair_key a.id b.id),
      get-apply_all (initial_pairs ns acl)
          (all_rule_applications stringify ns (network_map ns) (build_group_map groups) rules)
          (get_pair_key a.id b.id),
      get-initial_pairs ns acl a b ha hb differ,
    )

  initial-isolated :
      (acl : List L3AclIsolation) (a b : NetworkNode)
      → ((initial_pair acl (a, b)).blocked_by_isolation
          || (initial_pair acl (b, a)).blocked_by_isolation)
        ≡ is_isolated acl a b
  initial-isolated acl a b =
      ground (arith, blocked-initial_pair acl a b, blocked-initial_pair acl b a)

  -- Traffic between two networks is allowed exactly where no isolation is on, of the networks or of
  -- the switch in either direction, and the first rule that meets the pair does not forbid it: the
  -- first legacy rule by index, else the first policy by index, else it is allowed.
  pub connection-allowed :
      (acl : List L3AclIsolation) (profile : Option Profile) (a b : NetworkNode)
      → IsFound ns a
      → IsFound ns b
      → a.id ≢ b.id
      → (connection_in (pair_rules stringify ns rules policies groups acl) profile a b).allowed
        ≡ (verdict a b && not (is_isolated acl a b))
  unfolding connection_in connection_between allowed_by_rule is_blocked_pair
  connection-allowed acl profile a b ha hb differ =
      let ka = get_pair_key a.id b.id in
      let kb = get_pair_key b.id a.id in
      let pa = initial_pair acl (a, b) in
      let pb = initial_pair acl (b, a) in
      rw (get-pair_rules acl a b ha hb differ, get-pair_rules acl b a hb ha (λ e. differ (sym e)))
        (rw
          (
            amended-verdict (amended pa (rules_about ka)) (policies_about ka),
            amended-verdict pa (rules_about ka),
            amended-blocked (amended pa (rules_about ka)) (policies_about ka),
            amended-blocked pa (rules_about ka),
            amended-blocked (amended pb (rules_about kb)) (policies_about kb),
            amended-blocked pb (rules_about kb),
            initial-isolated acl a b,
            undecided-initial_pair acl a b,
          )
          refl)
