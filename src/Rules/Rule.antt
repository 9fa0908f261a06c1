-- ===== src/Rules/Rule.antt =====
-- ruleLoader/types.ts and ruleEngine.ts: security rules and what their execution gives.
use zero_proof.Base.{ℕ, String, Bool, Option, List}
use zero_proof.Rules.Value.{Fields}
use zero_proof.Rules.Conditions.{Condition}

-- `DetectionOutput`
pub record Output : Type 0 where
  pub affected_resource : String
  pub details : String
  pub current_value : Option String
  pub expected_value : Option String

pub record CrossReference : Type 0 where
  pub kind : String
  pub name_pattern : Option String

pub record AdditionalCondition : Type 0 where
  pub target : String
  pub aggregate : String
  pub op : String
  pub value : ℕ

-- An aggregate filter is a condition where it has the key `operator`, and an object of fields else.
pub data AggregateFilter : Type 0 where
  by_operator : Condition → AggregateFilter
  by_fields : Fields → AggregateFilter

pub record RuleDetection : Type 0 where
  pub target : String
  pub filter : Option Fields
  pub condition : Condition
  pub cross_reference : Option CrossReference
  pub aggregate : Option String
  pub aggregate_filter : Option AggregateFilter
  pub additional_condition : Option AdditionalCondition
  pub report_mode : Option String
  pub output : Output

-- `SecurityRuleDefinition`
pub record SecurityRule : Type 0 where
  pub id : String
  pub name : String
  pub category : String
  pub severity : String
  pub source_id : Option String
  pub sensitive_ports : Option Fields
  pub detection : RuleDetection

pub record RuleCheckResult : Type 0 where
  pub found : Bool
  pub affected_resource : String
  pub details : String
  pub current_value : Option String
  pub expected_value : Option String

pub record RuleExecutionResult : Type 0 where
  pub rule_id : String
  pub rule_name : String
  pub category : String
  pub severity : String
  pub source_id : String
  pub findings : List RuleCheckResult
