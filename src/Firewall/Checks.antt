-- ===== src/Firewall/Checks.antt =====
-- analyzers/firewallAnalyzer.ts: the checks of a rule by itself and of all rules.
use zero_proof.Base.{
  String, Bool, not, ◌&&◌, ◌||◌, Option, none, some, List, [], ◌∷◌, ◌++◌, map, str_eq,
  if◌then◌else◌, keep, any,
}
use zero_proof.Base.Dict.{Dict, get}
use zero_proof.Base.Text.{is_empty, concat, split, trim}
use zero_proof.Detection.{Severity, medium, high}
use zero_proof.Firewall.{
  FirewallRule, Finding, overly_permissive_rule, dangerous_port_exposed, missing_rfc1918_block,
  disabled_security_rule, name_text, is_blank, has_no_items, text_is, has_part, has_part_lowered,
}

unfoldable pub is_overly_permissive : FirewallRule → Bool
unfolding is_blank has_no_items text_is
is_overly_permissive r =
    str_eq r.action "accept"
    && is_blank r.src_address
    && has_no_items r.src_firewallgroup_ids
    && is_blank r.dst_address
    && has_no_items r.dst_firewallgroup_ids
    && is_blank r.dst_port
    && is_blank r.src_port
    && text_is r.protocol "all"

unfoldable pub permissive_findings : FirewallRule → List Finding
unfolding is_overly_permissive name_text
permissive_findings r =
    if is_overly_permissive r
    then record {
      type = overly_permissive_rule;
      severity = high;
      title = concat ("Overly permissive firewall rule: " ∷ name_text r ∷ []);
      affected_resource = name_text r;
    }
      ∷ []
    else []

unfoldable pub dangerous_ports : Dict Severity
dangerous_ports =
    ("22", medium)
    ∷ ("23", high)
    ∷ ("3389", high)
    ∷ ("5900", medium)
    ∷ ("1433", high)
    ∷ ("3306", high)
    ∷ ("5432", high)
    ∷ ("27017", high)
    ∷ ("6379", high)
    ∷ []

unfoldable pub port_finding : FirewallRule → String → Option Severity → List Finding
unfolding name_text has_part
port_finding r port none = []
port_finding r port (some v) =
    if has_part r.rule_set "WAN"
    then record {
      type = dangerous_port_exposed;
      severity = v;
      title = concat ("Port " ∷ port ∷ " exposed via rule \"" ∷ name_text r ∷ "\"" ∷ []);
      affected_resource = concat (name_text r ∷ " (port " ∷ port ∷ ")" ∷ []);
    }
      ∷ []
    else []

unfoldable pub ports_findings : FirewallRule → List String → List Finding
unfolding port_finding
ports_findings r [] = []
ports_findings r (p ∷ ps) =
    port_finding r (trim p) (get dangerous_ports (trim p)) ++ ports_findings r ps

unfoldable pub listed_ports : Option String → List String
listed_ports none = []
listed_ports (some s) = if is_empty s then [] else split b',' s

unfoldable pub check_dangerous_ports : FirewallRule → List Finding
unfolding ports_findings listed_ports
check_dangerous_ports r =
    if not (str_eq r.action "accept") || not r.enabled
    then []
    else ports_findings r (listed_ports r.dst_port)

unfoldable pub blocks_private : FirewallRule → Bool
unfolding has_part has_part_lowered
blocks_private r =
    r.enabled
    && str_eq r.action "drop"
    && has_part r.rule_set "WAN"
    && (has_part_lowered r.name "rfc1918"
        || has_part_lowered r.name "private"
        || has_part r.src_address "10.0.0.0"
        || has_part r.src_address "192.168."
        || has_part r.src_address "172.16.")

unfoldable pub check_missing_rules : List FirewallRule → List Finding
unfolding blocks_private
check_missing_rules rules =
    if any blocks_private rules
    then []
    else record {
      type = missing_rfc1918_block;
      severity = medium;
      title = "No RFC1918 block on WAN interface";
      affected_resource = "WAN Firewall";
    }
      ∷ []

unfoldable pub security_keywords : List String
security_keywords = "block" ∷ "drop" ∷ "deny" ∷ "reject" ∷ "security" ∷ "isolat" ∷ []

unfoldable pub is_security_rule : FirewallRule → Bool
unfolding has_part_lowered
is_security_rule r =
    any (has_part_lowered r.name) security_keywords
    || str_eq r.action "drop"
    || str_eq r.action "reject"

unfoldable pub disabled_finding : FirewallRule → Finding
unfolding name_text
disabled_finding r = record {
  type = disabled_security_rule;
  severity = medium;
  title = concat ("Security rule \"" ∷ name_text r ∷ "\" is disabled" ∷ []);
  affected_resource = name_text r;
}

unfoldable pub check_disabled_security_rules : List FirewallRule → List Finding
unfolding is_security_rule disabled_finding
check_disabled_security_rules rules =
    map disabled_finding (keep (λ r. not r.enabled && is_security_rule r) rules)
