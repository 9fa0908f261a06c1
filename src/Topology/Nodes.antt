-- ===== src/Topology/Nodes.antt =====
-- topologyAnalyzer.ts, buildNetworkNodes and the maps of networks and groups by id.
use zero_proof.Base.{
  ℕ, String, Bool, false, not, ◌||◌, Option, none, some, List, [], ◌∷◌, ◌++◌, map, str_eq,
  if◌then◌else◌, or_else, or_option, is_some, keep, find,
}
use zero_proof.Base.Dict.{Dict, get, set, values}
use zero_proof.Base.Text.{to_lower_case}
use zero_proof.Reachability.{text_or}
use zero_proof.Topology.{NetworkNode, FirewallGroup, first_text, nonempty}

-- `RawNetworkConfig`
pub record RawNetwork : Type 0 where
  pub raw_id : Option String
  pub id : Option String
  pub name : Option String
  pub vlan : Option ℕ
  pub vlan_id : Option ℕ
  pub ip_subnet : Option String
  pub purpose : Option String
  pub networkgroup : Option String
  pub network_group : Option String
  pub network_isolation : Option Bool
  pub network_isolation_enabled : Option Bool

is_lan : RawNetwork → Bool
is_lan n = not (str_eq (to_lower_case (or_else n.purpose "")) "wan")

pub node_of : RawNetwork → NetworkNode
node_of n = record {
  id = text_or (first_text n.raw_id n.id) "";
  name = text_or n.name "Unnamed";
  vlan_id = or_option n.vlan n.vlan_id;
  subnet = nonempty n.ip_subnet;
  purpose = text_or n.purpose "default";
  network_group = text_or (first_text n.networkgroup n.network_group) "LAN";
  network_isolation = or_else n.network_isolation_enabled (or_else n.network_isolation false);
}

pub build_network_nodes : List RawNetwork → List NetworkNode
unfolding is_lan
build_network_nodes ns = map node_of (keep is_lan ns)

pub networks_from : Dict NetworkNode → List NetworkNode → Dict NetworkNode
networks_from m [] = m
networks_from m (n ∷ ns) = networks_from (set m n.id n) ns

-- `new Map(networks.map(n => [n.id, n]))`
pub network_map : List NetworkNode → Dict NetworkNode
network_map ns = networks_from [] ns

group_id : FirewallGroup → Option String
group_id g = nonempty (first_text g.raw_id g.id)

put_group : Dict FirewallGroup → FirewallGroup → Option String → Dict FirewallGroup
put_group m g none = m
put_group m g (some id) = set m id g

groups_from : Dict FirewallGroup → List FirewallGroup → Dict FirewallGroup
groups_from m [] = m
groups_from m (g ∷ gs) = groups_from (put_group m g (group_id g)) gs

pub build_group_map : List FirewallGroup → Dict FirewallGroup
unfolding group_id put_group groups_from
build_group_map gs = groups_from [] gs

-- `n.name === text || n.id === text`
named : String → NetworkNode → Bool
named text n = str_eq n.name text || str_eq n.id text

-- `Array.from(networkMap.values()).find(…)` behind `if (text)`
network_named : Dict NetworkNode → Option String → List String
network_named networks none = []
network_named networks (some text) =
    if str_eq text ""
    then []
    else elim (find (named text) (values networks)) [ none ↦ [] | some n ↦ n.id ∷ [] ]

pub find_network : Dict NetworkNode → Option String → List String
unfolding named network_named
find_network networks text = network_named networks text

same_text : Option String → String → Bool
same_text none t = false
same_text (some s) t = str_eq s t

-- The entries of the map whose subnet or name is the member
matching_ids : Dict NetworkNode → String → List String
matching_ids [] member = []
matching_ids ((id, n) ∷ m) member =
    let rest = matching_ids m member in
    if same_text n.subnet member || str_eq n.name member then id ∷ rest else rest

-- What one member of a group stands for
member_ids : Dict NetworkNode → String → List String
member_ids networks member =
    (if is_some (get networks member) then member ∷ [] else []) ++ matching_ids networks member

members_ids : Dict NetworkNode → List String → List String
members_ids networks [] = []
members_ids networks (m ∷ ms) = member_ids networks m ++ members_ids networks ms

group_ids : Dict NetworkNode → Option FirewallGroup → List String
group_ids networks none = []
group_ids networks (some g) = members_ids networks (or_else g.group_members [])

pub resolve_network_from_group : Dict NetworkNode → Dict FirewallGroup → String → List String
unfolding same_text matching_ids member_ids members_ids group_ids
resolve_network_from_group networks groups id = group_ids networks (get groups id)
