-- ===== src/Firewall/Analysis.antt =====
-- analyzers/firewallAnalyzer.ts, analyzeFirewallRules.
use zero_proof.Base.{List, [], ◌++◌, if◌then◌else◌, concat_map}
use zero_proof.Firewall.Checks.{
  permissive_findings, check_dangerous_ports, check_missing_rules, check_disabled_security_rules,
}
use zero_proof.Firewall.Pairs.{find_rule_conflicts}
use zero_proof.Firewall.{FirewallRule, Finding}

unfoldable pub rule_findings : List FirewallRule → FirewallRule → List Finding
unfolding permissive_findings
rule_findings rules r =
    if r.enabled
    then permissive_findings r ++ check_dangerous_ports r ++ find_rule_conflicts r rules
    else []

unfoldable pub analyze_firewall_rules : List FirewallRule → List Finding
unfolding rule_findings
analyze_firewall_rules rules =
    concat_map (rule_findings rules) rules
    ++ check_missing_rules rules
    ++ check_disabled_security_rules rules
