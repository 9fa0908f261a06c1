-- ===== src/Rules/Aggregates.antt =====
-- ruleEngine.ts, executeAggregateRule.
use zero_proof.Base.{
  ℕ, String, Bool, true, false, not, ◌&&◌, ◌||◌, Option, none, some, List, str_eq, ltb, leb, ◌==◌,
  if◌then◌else◌, length, keep, is_nil,
}
use zero_proof.Rules.Value.{Value, Fields, bool, num, obj, no_fields, own, strict_eq, number_of}
use zero_proof.Rules.Conditions.{
  Regex, Condition, evaluate_condition, leaf, logical, Op, equals, lt, gt,
}
use zero_proof.Rules.Targets.{Config}
use zero_proof.Rules.Filters.{get_target_items, field_passes}
use zero_proof.Rules.Rule.{
  AdditionalCondition, AggregateFilter, by_operator, by_fields, RuleDetection, RuleCheckResult,
}
use zero_proof.Rules.Findings.{check_result}

fields_pass : Regex → Fields → Fields → Bool
fields_pass regex no_fields item = true
fields_pass regex (own k v more) item = field_passes regex item k v && fields_pass regex more item

pub aggregate_passes : Regex → Option AggregateFilter → Fields → Bool
unfolding fields_pass
aggregate_passes regex none item = true
aggregate_passes regex (some (by_operator c)) item = evaluate_condition regex none (obj item) c
aggregate_passes regex (some (by_fields fs)) item = fields_pass regex fs item

-- A count is a number, existence a Boolean; any other aggregate is none.
pub aggregate_of : String → List Fields → Option Value
aggregate_of how items =
    if str_eq how "count" || str_eq how "count_where"
    then some (num (length items))
    else if str_eq how "exists_where"
    then some (bool (not (is_nil items)))
    else none

number_passes : String → ℕ → ℕ → Bool
number_passes op a b =
    if str_eq op "gt"
    then ltb b a
    else if str_eq op "lt"
    then ltb a b
    else if str_eq op "gte"
    then leb b a
    else if str_eq op "lte"
    then leb a b
    else str_eq op "equals" && a == b

pub additional_passes : Regex → Option AdditionalCondition → Config → Bool
unfolding number_passes
additional_passes regex none c = true
additional_passes regex (some a) c =
    number_passes a.op
      (if str_eq a.aggregate "count" then length (get_target_items regex a.target c none) else 0)
      a.value

less : Option ℕ → Option ℕ → Bool
less (some a) (some b) = ltb a b
less _ _ = false

aggregate_meets : Value → Option Op → Value → Bool
unfolding less
aggregate_meets result (some equals) v = strict_eq result v
aggregate_meets result (some lt) v = less (number_of result) (number_of v)
aggregate_meets result (some gt) v = less (number_of v) (number_of result)
aggregate_meets result _ v = false

-- The condition on the aggregate; one with an `operator` has no `op`.
pub condition_met : Value → Condition → Bool
unfolding aggregate_meets
condition_met result (leaf l) = aggregate_meets result l.op l.value
condition_met result (logical o cs c) = false

-- What is reported of an aggregate
pub aggregate_report : Regex → RuleDetection → Config → Option Value → Option RuleCheckResult
aggregate_report regex d c none = none
aggregate_report regex d c (some result) =
    if additional_passes regex d.additional_condition c && condition_met result d.condition
    then some (check_result d.output no_fields (own "aggregate_result" result no_fields))
    else none

pub execute_aggregate_rule : Regex → String → RuleDetection → Config → Option RuleCheckResult
execute_aggregate_rule regex how d c = aggregate_report regex d c (
    aggregate_of how
      (keep (aggregate_passes regex d.aggregate_filter) (get_target_items regex d.target c none)))
