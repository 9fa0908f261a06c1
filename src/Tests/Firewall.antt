-- ===== src/Tests/Firewall.antt =====
-- Two rules of one ruleset with opposite actions.
use zero_proof.Base.{◌*◌, ◌≡◌, true, none, some, List, [], ◌∷◌, map, keep, length, concat_map}
use zero_proof.Firewall.{FirewallRule}
use zero_proof.Firewall.Analysis.{analyze_firewall_rules}
use zero_proof.Firewall.OrderedPairs.{count_pairs}
use zero_proof.Firewall.Conflicting.{are_in_conflict, conflict_told}
use zero_proof.Firewall.Conflicts.{conflicts_in, analyze_firewall_rules-twice}

abbrev allow_all : FirewallRule
allow_all = record {
  id = some "r1";
  name = some "Allow";
  enabled = true;
  action = "accept";
  rule_set = some "LAN_IN";
  rule_index = 2000;
  protocol = some "all";
  src_address = none;
  dst_address = none;
  src_port = none;
  dst_port = none;
  src_firewallgroup_ids = none;
  dst_firewallgroup_ids = none;
}

abbrev rules : List FirewallRule
rules = allow_all ∷ record allow_all { id = some "r2"; action = "drop"; rule_index = 2001 } ∷ []

analyze_firewall_rules-twice_example :
    (conflicts_in (analyze_firewall_rules rules)
      ≡ concat_map (λ a. map (conflict_told a) (keep (are_in_conflict a) rules)) rules)
    × ((a b : FirewallRule) → are_in_conflict a b ≡ are_in_conflict b a)
    × (length (conflicts_in (analyze_firewall_rules rules)) ≡ 2 * count_pairs are_in_conflict rules)
analyze_firewall_rules-twice_example = analyze_firewall_rules-twice rules
