-- ===== src/Reachability.antt =====
-- services/reachabilityPolicyService.ts: the categories of networks, and the parts of the intent
-- profile (types/index.ts) that the reachability policy reads.
pub mod Categories
pub mod Intent
pub mod Effective
pub mod Decision
pub mod Evaluator
use zero_proof.Base.Text.{is_empty}
use zero_proof.Base.{ℕ, String, Bool, Option, none, some, List, ◌==◌, if◌then◌else◌}

-- `IntentNetworkCategory`
pub data Category : Type 0 where
  default home work iot guest trusted nas server : Category

category_code : Category → ℕ
category_code default = 0
category_code home = 1
category_code work = 2
category_code iot = 3
category_code guest = 4
category_code trusted = 5
category_code nas = 6
category_code server = 7

-- `===` on categories
unfoldable pub same_category : Category → Category → Bool
unfolding category_code
same_category a b = category_code a == category_code b

-- `ReachabilityExpected`
pub data Expected : Type 0 where
  allow block unknown : Expected

pub data WorkIsolationMode : Type 0 where
  phased strict : WorkIsolationMode

pub data NasAccess : Type 0 where
  all_networks trusted_only specific_vlans : NasAccess

pub data InterVlanDefault : Type 0 where
  allow_all deny : InterVlanDefault

-- The categories of an override are texts, since they are read from stored JSON.
pub record ReachabilityOverride : Type 0 where
  pub source_category : String
  pub target_category : String
  pub action : Expected
  pub reason : Option String

pub record NetworkMappings : Type 0 where
  pub work_network_id : Option String
  pub iot_network_id : Option String
  pub guest_network_id : Option String
  pub trusted_network_id : Option String
  pub nas_network_id : Option String
  pub server_network_id : Option String

-- `NetworkIntentProfile`
pub record Profile : Type 0 where
  pub work_from_home : Bool
  pub work_device_isolation : Bool
  pub work_isolation_mode : Option WorkIsolationMode
  pub has_iot : Bool
  pub iot_isolation : Bool
  pub nas_accessible_from : NasAccess
  pub guest_network : Bool
  pub guest_isolation : Bool
  pub inter_vlan_default : InterVlanDefault
  pub reachability_overrides : List ReachabilityOverride
  pub network_mappings : Option NetworkMappings

-- `s || d` on a text that may be missing
abbrev pub text_or : Option String → String → String
text_or none d = d
text_or (some s) d = if is_empty s then d else s
