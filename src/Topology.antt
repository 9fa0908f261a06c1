-- ===== src/Topology.antt =====
-- services/topologyAnalyzer.ts: the networks of a configuration and how traffic passes between them.
-- A key that is missing or null is `none`.
pub mod Nodes
pub mod Pairs
pub mod Rules
pub mod Policies
pub mod Connections
use zero_proof.Base.{ℕ, String, Bool, Option, none, some, List, str_eq, if◌then◌else◌}

pub record NetworkNode : Type 0 where
  pub id : String
  pub name : String
  pub vlan_id : Option ℕ
  pub subnet : Option String
  pub purpose : String
  pub network_group : String
  pub network_isolation : Bool

pub record RuleInfo : Type 0 where
  pub name : String
  pub action : String
  pub enabled : Bool
  pub rule_set : Option String
  pub rule_index : Option ℕ
  pub protocol : Option String
  pub src_network : Option String
  pub dst_network : Option String
  pub dst_port : Option String
  pub unifi_id : Option String

pub data BlockReason : Type 0 where
  firewall isolation both : BlockReason

pub record EnhancedConnection : Type 0 where
  pub src_id : String
  pub dst_id : String
  pub src_name : String
  pub dst_name : String
  pub allowed : Bool
  pub bidirectional : Bool
  pub rules : List RuleInfo
  pub allowed_by_default : Bool
  pub violates_intent : Bool
  pub intent_reason : Option String
  pub blocked_by_isolation : Bool
  pub block_reason : Option BlockReason
  pub isolation_source : Option String

-- `RawFirewallRule`
pub record FirewallRule : Type 0 where
  pub raw_id : Option String
  pub id : Option String
  pub name : Option String
  pub enabled : Option Bool
  pub rule_set : Option String
  pub rule_index : Option ℕ
  pub action : Option String
  pub protocol : Option String
  pub src_network : Option String
  pub dst_network : Option String
  pub src_firewallgroup_ids : Option (List String)
  pub dst_firewallgroup_ids : Option (List String)
  pub dst_address : Option String
  pub dst_port : Option String

-- `RawFirewallGroup`
pub record FirewallGroup : Type 0 where
  pub raw_id : Option String
  pub id : Option String
  pub group_members : Option (List String)

pub data MatchingTarget : Type 0 where
  any_target network ip client : MatchingTarget

-- One side of a `RawFirewallPolicy`; `port_ranges` are those of a destination.
pub record Side : Type 0 where
  pub matching_target : MatchingTarget
  pub network_ids : Option (List String)
  pub port_ranges : Option (List String)

pub record FirewallPolicy : Type 0 where
  pub raw_id : String
  pub name : String
  pub action : String
  pub enabled : Bool
  pub predefined : Bool
  pub index : ℕ
  pub protocol : Option String
  pub source : Side
  pub destination : Side

pub record L3AclIsolation : Type 0 where
  pub source_network : String
  pub destination_networks : List String

-- `a || b` on texts that may be missing
abbrev pub first_text : Option String → Option String → Option String
first_text none b = b
first_text (some s) b = if str_eq s "" then b else some s

-- `a || undefined`, for what is shown
abbrev pub nonempty : Option String → Option String
nonempty none = none
nonempty (some s) = if str_eq s "" then none else some s
