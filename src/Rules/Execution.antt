-- ===== src/Rules/Execution.antt =====
-- ruleEngine.ts, executeRule and executeAllRules. A rule passes the configuration on to the next one,
-- since it may write into the networks.
pub mod Laws
use zero_proof.Base.{
  String, Bool, false, ◌||◌, Option, none, some, List, [], ◌∷◌, map, str_eq, if◌then◌else◌,
}
use zero_proof.Rules.Value.{no_fields}
use zero_proof.Rules.Conditions.{Regex}
use zero_proof.Rules.Targets.{Config}
use zero_proof.Rules.Filters.{get_target_items}
use zero_proof.Rules.Rule.{RuleDetection, SecurityRule, RuleCheckResult, RuleExecutionResult}
use zero_proof.Reachability.{text_or}
use zero_proof.Topology.{nonempty}
use zero_proof.Rules.Findings.{check_result, findings_from}
use zero_proof.Rules.CrossReferences.{Prepared, stopped, ready, prepare}
use zero_proof.Rules.Aggregates.{execute_aggregate_rule}

result_with : SecurityRule → List RuleCheckResult → RuleExecutionResult
result_with r findings = record {
  rule_id = r.id;
  rule_name = r.name;
  category = r.category;
  severity = r.severity;
  source_id = text_or r.source_id "unknown";
  findings = findings;
}

-- One finding for each item
pub report : Regex → RuleDetection → Config → List RuleCheckResult
report regex d c =
    map (λ item. check_result d.output item no_fields) (get_target_items regex d.target c d.filter)

-- The loop, from where it starts
run : Regex → SecurityRule → Config → Prepared → List RuleCheckResult × Config
run regex r c stopped = ([], c)
run regex r c (ready context items config) = (findings_from regex r context items, config)

pub execute_standard : Regex → SecurityRule → Config → List RuleCheckResult × Config
unfolding run
execute_standard regex r c = run regex r c (prepare regex r.detection c)

unfoldable pub is_report_mode : Option String → Bool
is_report_mode none = false
is_report_mode (some mode) = str_eq mode "exists" || str_eq mode "each"

one_finding : Option RuleCheckResult → List RuleCheckResult
one_finding none = []
one_finding (some f) = f ∷ []

findings_of : Regex → SecurityRule → Config → Option String → List RuleCheckResult × Config
unfolding is_report_mode one_finding
findings_of regex r c (some how) = (one_finding (execute_aggregate_rule regex how r.detection c), c)
findings_of regex r c none =
    if is_report_mode r.detection.report_mode
    then (report regex r.detection c, c)
    else execute_standard regex r c

pub execute_rule : Regex → SecurityRule → Config → RuleExecutionResult × Config
unfolding findings_of result_with
execute_rule regex r c =
    let found = findings_of regex r c (nonempty r.detection.aggregate) in
    (result_with r found.0, found.1)

pub execute_all_rules : Regex → List SecurityRule → Config → List RuleExecutionResult × Config
execute_all_rules regex [] c = ([], c)
execute_all_rules regex (r ∷ rules) c =
    let now = execute_rule regex r c in
    let later = execute_all_rules regex rules now.1 in (now.0 ∷ later.0, later.1)
