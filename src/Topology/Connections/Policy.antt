-- ===== src/Topology/Connections/Policy.antt =====
-- The reachability policy on the connections of the topology: what it infers of a path.
use zero_proof.Base.{
  String, ◌≡◌, refl, ap, ◌∙◌, ◌≢◌, ◌⊎◌, inl, inr, Bool, true, false, not, ◌&&◌, ◌||◌, Option, none,
  some, List, [], ◌∷◌, ◌++◌, map, arith, str_eq, eq_iff, eq_refl, if◌then◌else◌, Bool-cases, All,
  keep, any,
}
use zero_proof.Base.Dict.{Dict}
use zero_proof.Base.Groups.{is_key, last_value}
use zero_proof.Reachability.{Profile, allow, block}
use zero_proof.Reachability.Categories.{PolicyNetworkInfo}
use zero_proof.Reachability.Effective
use zero_proof.Reachability.Decision.{Evidence, evidence_expected}
use zero_proof.Reachability.Evaluator.{create_evaluator, evaluate}
use zero_proof.Reachability.Evaluator.Laws.{evaluate-effective}
use zero_proof.Topology.{
  NetworkNode, EnhancedConnection, RuleInfo, FirewallRule, FirewallGroup, FirewallPolicy,
  L3AclIsolation,
}
use zero_proof.Topology.Pairs.{Pair, get_pair_key, pairs_from, key_of}
use zero_proof.Topology.Pairs.Isolation.{IsFound, pairs-IsPair, pairs-any}
use zero_proof.Topology.Connections.{
  pair_rules, connection_in, connections_of, topology_connections, build_wan_connections,
  wan_connection, connection_between, build_connections,
}
use zero_proof.Topology.Connections.Laws.{connection-allowed, verdict, is_isolated}

-- The part of a rule and of a connection that the policy reads
abbrev pub seen_rule : RuleInfo → Effective.RuleInfo
seen_rule r = record { name = some r.name; rule_set = r.rule_set; rule_index = r.rule_index }

abbrev pub seen : EnhancedConnection → Effective.Connection
seen c = record {
  src_id = c.src_id;
  dst_id = c.dst_id;
  allowed = c.allowed;
  rules = map seen_rule c.rules;
  allowed_by_default = c.allowed_by_default;
  blocked_by_isolation = c.blocked_by_isolation;
  isolation_source = c.isolation_source;
}

abbrev has_key : String → Effective.Connection → Bool
has_key k c = is_key k (Effective.key_of c)

last_of : Option Evidence → String → List EnhancedConnection → Option Evidence
last_of o k cs =
    last_value Effective.key_of Effective.evidence_of o (keep (has_key k) (map seen cs))

module _ (k : String) where
  last-append :
      (o : Option Evidence) (cs ds : List EnhancedConnection)
      → last_of o k (cs ++ ds) ≡ last_of (last_of o k cs) k ds
  unfolding last_of
  last-append o [] ds = refl
  last-append o (c ∷ cs) ds = elim (Bool-cases (has_key k (seen c))) [
    | inl own ↦ rw own (last-append (some (Effective.evidence_of (seen c))) cs ds)
    | inr other ↦ rw other (last-append o cs ds)
  ]

  -- Connections to the WAN have no key.
  last-wan :
      (o : Option Evidence) (rules : List FirewallRule) (ns : List NetworkNode)
      → last_of o k (build_wan_connections ns rules) ≡ o
  unfolding last_of build_wan_connections wan_connection Effective.key_of
  last-wan o rules [] = refl
  last-wan o rules (n ∷ ns) = last-wan o rules ns

and_false : (b : Bool) → (b && false) ≡ false
and_false true = refl
and_false false = refl

module _ (pairs : Dict Pair) (profile : Option Profile) where
  has_key-seen :
      (k : String) (x y : NetworkNode)
      → has_key k (seen (connection_in pairs profile x y))
        ≡ (not (str_eq y.id "WAN" || str_eq x.id "WAN") && str_eq (get_pair_key x.id y.id) k)
  unfolding connection_in connection_between Effective.key_of
  has_key-seen k x y = elim (Bool-cases (str_eq y.id "WAN" || str_eq x.id "WAN")) [
    | inl wan ↦ rw wan refl
    | inr lan ↦ rw lan refl
  ]

  module _ (a b : NetworkNode) (not_wan : (str_eq b.id "WAN" || str_eq a.id "WAN") ≡ false) where
    abbrev its_key : String
    its_key = get_pair_key a.id b.id

    abbrev its_evidence : Evidence
    its_evidence = Effective.evidence_of (seen (connection_in pairs profile a b))

    abbrev IsIt : NetworkNode × NetworkNode → Type 0
    IsIt q = is_key its_key (key_of q) ≡ true → q ≡ (a, b)

    last-pairs :
        (o : Option Evidence) (qs : List (NetworkNode × NetworkNode))
        → All IsIt qs
        → (o ≡ some its_evidence) ⊎ (any (λ q. is_key its_key (key_of q)) qs ≡ true)
        → last_of o its_key (connections_of pairs profile qs) ≡ some its_evidence
    unfolding last_of connections_of
    last-pairs o [] h (inl e) = e
    last-pairs o [] h (inr e) = cc
    last-pairs o ((x, y) ∷ qs) h s = elim (Bool-cases (str_eq x.id y.id)) [
      | inl same ↦ rw same (last-pairs o qs h.1 (rw same at s))
      | inr other ↦ rw other (elim (Bool-cases (str_eq (get_pair_key x.id y.id) its_key)) [
        | inl own ↦
            let e : (x, y) ≡ (a, b) = h.0 (rw other own) in
            rw (ap (λ q. q.0) e, ap (λ q. q.1) e)
              (rw (has_key-seen its_key a b, not_wan, eq_refl its_key)
                (last-pairs (some its_evidence) qs h.1 (inl refl)))
        | inr apart ↦
            rw (has_key-seen its_key x y, apart, and_false _)
              (last-pairs o qs h.1 (rw (other, apart) at s))
      ])
    ]

module _ (stringify : FirewallRule → String) (ns : List NetworkNode) (rules : List FirewallRule)
    (policies : List FirewallPolicy) (groups : List FirewallGroup) (acl : List L3AclIsolation)
    (profile : Option Profile) where
  abbrev pub observed : List Effective.Connection
  observed = map seen (topology_connections stringify ns rules policies groups profile acl)

  last-topology :
      (a b : NetworkNode)
      → IsFound ns a
      → IsFound ns b
      → a.id ≢ b.id
      → (str_eq b.id "WAN" || str_eq a.id "WAN") ≡ false
      → last_value Effective.key_of Effective.evidence_of none
          (keep (has_key (get_pair_key a.id b.id)) observed)
        ≡ some (
            Effective.evidence_of (
              seen (connection_in (pair_rules stringify ns rules policies groups acl) profile a b)))
  unfolding last_of topology_connections build_connections
  last-topology a b ha hb differ lan =
      let pairs = pair_rules stringify ns rules policies groups acl in
      let k = get_pair_key a.id b.id in
      last-append k none (connections_of pairs profile (pairs_from ns ns))
        (build_wan_connections ns rules)
      ∙ last-wan k _ rules ns
      ∙ last-pairs pairs profile a b lan none (pairs_from ns ns) (pairs-IsPair ns a b ha hb differ)
          (inr (pairs-any ns a b ha hb differ))

  -- The reachability policy infers that traffic from one network to another is allowed exactly where
  -- no isolation is on and the first rule that meets the pair does not forbid it, whatever the
  -- categories of the networks.
  pub evaluate-topology :
      (infos : List PolicyNetworkInfo) (a b : NetworkNode)
      → IsFound ns a
      → IsFound ns b
      → a.id ≢ b.id
      → a.id ≢ "WAN"
      → b.id ≢ "WAN"
      → (evaluate (create_evaluator observed profile infos) a.id b.id).effective_expected ≡ (
          if verdict stringify ns rules policies groups a b && not (is_isolated acl a b)
          then allow
          else block)
  unfolding connection_in connection_between
  evaluate-topology infos a b ha hb differ wa wb =
      let c = connection_in (pair_rules stringify ns rules policies groups acl) profile a b in
      evaluate-effective observed profile infos a.id b.id
      ∙ ap evidence_expected
          (last-topology a b ha hb differ (ground (arith, eq_iff a.id "WAN", eq_iff b.id "WAN")))
      ∙ Effective.evidence_of-expected (seen c)
      ∙ ap (λ v. if v then allow else block)
          (connection-allowed stringify ns rules policies groups acl profile a b ha hb differ)
