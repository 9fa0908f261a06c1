-- ===== src/Firewall/Pairs.antt =====
-- analyzers/firewallAnalyzer.ts: the checks of a rule against the others.
use zero_proof.Base.{Bool, not, ◌&&◌, ◌||◌, List, [], ◌∷◌, ◌++◌, str_eq, ltb, if◌then◌else◌}
use zero_proof.Base.Text.{concat}
use zero_proof.Detection.{low, medium}
use zero_proof.Firewall.{
  FirewallRule, Finding, shadowed_rule, conflicting_rules, name_text, is_blank, text_is, same,
}

unfoldable pub rules_shadow : FirewallRule → FirewallRule → Bool
unfolding text_is same is_blank
rules_shadow higher lower =
    (text_is higher.protocol "all" || same higher.protocol lower.protocol)
    && (is_blank higher.dst_port || is_blank lower.dst_port || same higher.dst_port lower.dst_port)

unfoldable pub rules_overlap : FirewallRule → FirewallRule → Bool
unfolding text_is same
rules_overlap a b =
    text_is a.protocol "all" || text_is b.protocol "all" || same a.protocol b.protocol

-- Not one of the `continue`s of the loop over the other rules
unfoldable pub is_compared : FirewallRule → FirewallRule → Bool
unfolding same
is_compared r other = not (same r.id other.id) && other.enabled && same r.rule_set other.rule_set

unfoldable pub is_shadowed_by : FirewallRule → FirewallRule → Bool
is_shadowed_by other r = ltb r.rule_index other.rule_index && rules_shadow r other

unfoldable pub is_conflict : FirewallRule → FirewallRule → Bool
is_conflict r other = not (str_eq r.action other.action) && rules_overlap r other

unfoldable pub pair_findings : FirewallRule → FirewallRule → List Finding
unfolding name_text
pair_findings r other =
    (if is_shadowed_by other r
      then record {
        type = shadowed_rule;
        severity = low;
        title =
            concat ("Rule \"" ∷ name_text other ∷ "\" is shadowed by \"" ∷ name_text r ∷ "\"" ∷ []);
        affected_resource = name_text other;
      }
        ∷ []
      else [])
    ++ (if is_conflict r other
        then record {
          type = conflicting_rules;
          severity = medium;
          title =
              concat
                ("Rules \"" ∷ name_text r ∷ "\" and \"" ∷ name_text other ∷ "\" may conflict" ∷ []);
          affected_resource = concat (name_text r ∷ " / " ∷ name_text other ∷ []);
        }
          ∷ []
        else [])

unfoldable pub find_rule_conflicts : FirewallRule → List FirewallRule → List Finding
unfolding pair_findings
find_rule_conflicts r [] = []
find_rule_conflicts r (other ∷ others) =
    let rest = find_rule_conflicts r others in
    if is_compared r other then pair_findings r other ++ rest else rest
