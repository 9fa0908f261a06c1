-- ===== src/Tests/Topology.antt =====
-- A home network, an IoT network and a cabin that is isolated; a rule drops what comes from IoT.
use zero_proof.Base.{
  String, ◌≡◌, refl, ◌≢◌, Bool, true, false, not, ◌&&◌, none, some, List, [], ◌∷◌, str_eq, eq_iff,
  if◌then◌else◌,
}
use zero_proof.Reachability.{allow, block}
use zero_proof.Reachability.Evaluator.{create_evaluator, evaluate}
use zero_proof.Topology.{NetworkNode, FirewallRule}
use zero_proof.Topology.Pairs.Isolation.{IsFound}
use zero_proof.Topology.Connections.{pair_rules, connection_in}
use zero_proof.Topology.Connections.Laws.{connection-allowed, verdict, is_isolated}
use zero_proof.Topology.Connections.Policy.{evaluate-topology, observed}
use zero_proof.Topology.Connections.Reverse.{connection-reverse, agree}
use zero_proof.Tests.Reachability.{household}

abbrev node : (id name : String) (isolated : Bool) → NetworkNode
node id name isolated = record {
  id = id;
  name = name;
  vlan_id = none;
  subnet = none;
  purpose = "corporate";
  network_group = "LAN";
  network_isolation = isolated;
}

abbrev home_lan : NetworkNode
home_lan = node "n1" "Home LAN" false

abbrev things : NetworkNode
things = node "n2" "Things" false

abbrev cabin : NetworkNode
cabin = node "n3" "Cabin" true

abbrev nodes : List NetworkNode
nodes = home_lan ∷ things ∷ cabin ∷ []

home_lan-IsFound : IsFound nodes home_lan
home_lan-IsFound = record {
  found = refl;
  distinct = (refl, (refl, (refl, tt)));
  plain = (refl, (refl, (refl, tt)));
}

things-IsFound : IsFound nodes things
things-IsFound = record {
  found = refl;
  distinct = (refl, (refl, (refl, tt)));
  plain = (refl, (refl, (refl, tt)));
}

texts_differ : (a b : String) → str_eq a b ≡ false → a ≢ b
texts_differ a b h e = cc ((eq_iff a b).1 e)

abbrev drop_things : FirewallRule
drop_things = record {
  raw_id = some "r1";
  id = none;
  name = some "Things out";
  enabled = some true;
  rule_set = some "LAN_IN";
  rule_index = some 2000;
  action = some "drop";
  protocol = none;
  src_network = some "n2";
  dst_network = some "n1";
  src_firewallgroup_ids = none;
  dst_firewallgroup_ids = none;
  dst_address = none;
  dst_port = none;
}

abbrev no_text : FirewallRule → String
no_text r = ""

-- The rule drops what the things send home.
connection-allowed_example :
    (connection_in
      (pair_rules no_text nodes (drop_things ∷ []) [] [] [])
      (some household)
      things
      home_lan).allowed
    ≡ (verdict no_text nodes (drop_things ∷ []) [] [] things home_lan
        && not (is_isolated [] things home_lan))
connection-allowed_example =
    connection-allowed no_text nodes (drop_things ∷ []) [] [] [] (some household) things home_lan
      things-IsFound home_lan-IsFound (texts_differ "n2" "n1" refl)

evaluate-topology_example :
    (evaluate
      (create_evaluator
        (observed no_text nodes (drop_things ∷ []) [] [] [] (some household))
        (some household)
        [])
      "n2"
      "n1").effective_expected
    ≡ (if verdict no_text nodes (drop_things ∷ []) [] [] things home_lan
          && not (is_isolated [] things home_lan)
        then allow
        else block)
evaluate-topology_example =
    evaluate-topology no_text nodes (drop_things ∷ []) [] [] [] (some household) [] things home_lan
      things-IsFound home_lan-IsFound (texts_differ "n2" "n1" refl) (texts_differ "n2" "WAN" refl)
      (texts_differ "n1" "WAN" refl)

connection-reverse_example :
    let there =
      connection_in
        (pair_rules no_text nodes (drop_things ∷ []) [] [] [])
        (some household)
        things
        home_lan in
    let back =
      connection_in
        (pair_rules no_text nodes (drop_things ∷ []) [] [] [])
        (some household)
        home_lan
        things in
    (there.blocked_by_isolation ≡ back.blocked_by_isolation)
    × (there.bidirectional ≡ agree there.allowed back.allowed)
    × (there.bidirectional ≡ back.bidirectional)
    × ((there.violates_intent && back.allowed) ≡ (back.violates_intent && there.allowed))
connection-reverse_example =
    connection-reverse (pair_rules no_text nodes (drop_things ∷ []) [] [] []) (some household)
      things home_lan
