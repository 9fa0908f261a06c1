-- ===== src/Firewall.antt =====
-- analyzers/firewallAnalyzer.ts: findings on the firewall rules of a configuration. The descriptions,
-- impacts and remediations are left out; a field that is missing is `none`.
pub mod Checks
pub mod Pairs
pub mod OrderedPairs
pub mod Conflicting
pub mod Analysis
pub mod Conflicts
use zero_proof.Base.{
  ℕ, String, Bool, true, false, Option, none, some, List, [], ◌∷◌, str_eq, or_else,
}
use zero_proof.Base.Dict.{Dict, get}
use zero_proof.Base.Text.{is_empty, concat, includes, to_lower_case, split, trim}
use zero_proof.Detection.{Severity, low, medium, high}

-- `UniFiFirewallRule`, the keys that the analyzer reads
pub record FirewallRule : Type 0 where
  pub id : Option String
  pub name : Option String
  pub enabled : Bool
  pub action : String
  pub rule_set : Option String
  pub rule_index : ℕ
  pub protocol : Option String
  pub src_address : Option String
  pub dst_address : Option String
  pub src_port : Option String
  pub dst_port : Option String
  pub src_firewallgroup_ids : Option (List String)
  pub dst_firewallgroup_ids : Option (List String)

pub data FindingType : Type 0 where
  overly_permissive_rule dangerous_port_exposed shadowed_rule : FindingType
  conflicting_rules missing_rfc1918_block disabled_security_rule : FindingType

pub record Finding : Type 0 where
  pub type : FindingType
  pub severity : Severity
  pub title : String
  pub affected_resource : String

-- A name in a template
unfoldable pub name_text : FirewallRule → String
name_text r = or_else r.name "undefined"

-- `!text`, and a list that is missing or empty
unfoldable pub is_blank : Option String → Bool
is_blank none = true
is_blank (some s) = is_empty s

unfoldable pub has_no_items : Option (List String) → Bool
has_no_items none = true
has_no_items (some []) = true
has_no_items (some (x ∷ xs)) = false

unfoldable pub text_is : Option String → String → Bool
text_is none t = false
text_is (some s) t = str_eq s t

-- `a === b` on texts that may be missing
unfoldable pub same : Option String → Option String → Bool
same none none = true
same (some s) (some t) = str_eq s t
same _ _ = false

-- `text?.includes(part)` and `text?.toLowerCase().includes(part)`
unfoldable pub has_part : Option String → String → Bool
has_part none part = false
has_part (some s) part = includes s part

unfoldable pub has_part_lowered : Option String → String → Bool
has_part_lowered none part = false
has_part_lowered (some s) part = includes (to_lower_case s) part
