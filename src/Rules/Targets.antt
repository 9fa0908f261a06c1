-- ===== src/Rules/Targets.antt =====
-- ruleEngine.ts, getTargetItems: the items of a configuration that a rule is about. The name, the
-- purpose and the id of an item, where it has them, are texts; a list that is missing is empty.
pub mod Laws
use zero_proof.Base.{
  String, Bool, Option, none, some, List, [], ◌∷◌, map, str_eq, if◌then◌else◌, find,
}
use zero_proof.Base.Text.{join}
use zero_proof.Rules.Value.{
  Value, Fields, Items, str, arr, no_fields, own, no_items, element, field_at, property, strict_eq,
  element_text, texts_of, truthy,
}
use zero_proof.Rules.Networks.{NetworkData}

-- `UniFiConfigData`, as far as rules have targets in it
pub record Config : Type 0 where
  pub networks : List Fields
  pub firewall_rules : List Fields
  pub firewall_policies : List Fields
  pub wlans : List Fields
  pub port_forwards : List Fields
  pub clients : List Fields
  pub devices : List Fields
  pub settings : Option Fields
  pub acl_rules : List Fields
  pub l3_acl_isolation : List Fields
  pub device_isolation_networks : List String
  pub vpn_servers : List Fields
  pub firewall_zones : List Fields

-- A field that is a text
text_in : Value → Option String
text_in (str s) = some s
text_in _ = none

unfoldable pub text_field : Fields → String → Option String
unfolding text_in
text_field fs k = text_in (field_at fs k)

pub network_data : Fields → NetworkData
network_data fs = record { name = text_field fs "name"; purpose = text_field fs "purpose" }

-- `{ ...item, k: v }` and `item.k = v`
unfoldable pub set_field : Fields → String → Value → Fields
set_field no_fields k v = own k v no_fields
set_field (own j w fs) k v = if str_eq j k then own j v fs else own j w (set_field fs k v)

same_id : Value → Fields → Bool
same_id id n = strict_eq (field_at n "_id") id

named_or : Value → Option Fields → Value
named_or id none = id
named_or id (some n) = if truthy (field_at n "name") then field_at n "name" else id

-- `resolveNetworkName`
resolve_network_name : List Fields → Value → Value
unfolding same_id named_or
resolve_network_name networks id =
    if truthy id then named_or id (find (same_id id) networks) else str ""

resolved_names : List Fields → Items → List String
resolved_names networks no_items = []
resolved_names networks (element x xs) =
    element_text (resolve_network_name networks x) ∷ resolved_names networks xs

unfoldable pub elements : Value → Items
elements (arr xs) = xs
elements _ = no_items

describe_ids : List Fields → Items → String
describe_ids networks no_items = "Any"
describe_ids networks ids = join ", " (resolved_names networks ids)

describe_subnets : List Fields → Items → Items → String
describe_subnets networks no_items ids = describe_ids networks ids
describe_subnets networks subnets ids = join ", " (texts_of subnets)

-- `sourceDesc` and `destDesc` of one side of an ACL rule
describe_side : List Fields → Value → String
unfolding describe_ids describe_subnets elements
describe_side networks side =
    describe_subnets networks (elements (property side "ips_or_subnets"))
      (elements (property side "network_ids"))

described_rule : List Fields → Fields → Fields
described_rule networks rule =
    set_field
      (set_field rule "source_desc" (str (describe_side networks (field_at rule "traffic_source"))))
      "dest_desc" (str (describe_side networks (field_at rule "traffic_destination")))

described_entry : List Fields → Fields → Fields
described_entry networks entry =
    set_field
      (set_field entry "source_network_name"
        (resolve_network_name networks (field_at entry "source_network")))
      "destination_networks_names"
      (str (join ", " (resolved_names networks (elements (field_at entry "destination_networks")))))

described_id : List Fields → String → Fields
described_id networks id =
    own "networkId" (str id) (own "network_name" (resolve_network_name networks (str id)) no_fields)

one_item : Option Fields → List Fields
one_item none = []
one_item (some s) = s ∷ []

-- The `switch` on the target; an unknown target has no items.
pub items_of : String → Config → List Fields
items_of target c =
    if str_eq target "firewallRules"
    then c.firewall_rules
    else if str_eq target "networks"
    then c.networks
    else if str_eq target "wlans"
    then c.wlans
    else if str_eq target "portForwards"
    then c.port_forwards
    else if str_eq target "settings"
    then one_item c.settings
    else if str_eq target "firewallPolicies"
    then c.firewall_policies
    else if str_eq target "aclRules"
    then map (described_rule c.networks) c.acl_rules
    else if str_eq target "l3AclIsolation"
    then map (described_entry c.networks) c.l3_acl_isolation
    else if str_eq target "deviceIsolationNetworks"
    then map (described_id c.networks) c.device_isolation_networks
    else if str_eq target "clients"
    then c.clients
    else if str_eq target "devices"
    then c.devices
    else if str_eq target "vpnServers"
    then c.vpn_servers
    else if str_eq target "firewallZones"
    then c.firewall_zones
    else []
