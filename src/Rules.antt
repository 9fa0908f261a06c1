-- ===== src/Rules.antt =====
-- services/ruleLoader/ruleEngine.ts: declarative rules evaluated against a configuration.
pub mod Value
pub mod Conditions
pub mod Networks
pub mod Template
pub mod Targets
pub mod Filters
pub mod Rule
pub mod Findings
pub mod CrossReferences
pub mod Aggregates
pub mod Execution
