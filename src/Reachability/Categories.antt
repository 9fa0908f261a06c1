-- ===== src/Reachability/Categories.antt =====
-- reachabilityPolicyService.ts: which category a network or a text stands for.
use zero_proof.Base.{String, Bool, false, Option, none, some, List, [], str_eq, if◌then◌else◌}
use zero_proof.Base.Dict.{Dict}
use zero_proof.Base.Text.{to_lower_case, is_empty, trim, includes}
use zero_proof.Base.Groups.{group}
use zero_proof.Reachability.{
  Category, default, home, work, iot, guest, trusted, nas, server, NetworkMappings, Profile,
}

-- `normalizeCategory`
unfoldable pub normalize_category : String → Category
normalize_category value =
    let normalized = to_lower_case (trim value) in
    if str_eq normalized "iot"
    then iot
    else if str_eq normalized "work"
    then work
    else if str_eq normalized "guest"
    then guest
    else if str_eq normalized "trusted"
    then trusted
    else if str_eq normalized "nas"
    then nas
    else if str_eq normalized "server"
    then server
    else if str_eq normalized "home"
    then home
    else default

-- `inferCategoryFromName`
unfoldable pub infer_category_from_name : String → Category
infer_category_from_name name =
    let lower = to_lower_case (trim name) in
    if includes lower "iot"
    then iot
    else if includes lower "guest"
    then guest
    else if includes lower "work"
    then work
    else if includes lower "trusted"
    then trusted
    else if includes lower "home"
    then home
    else if includes lower "nas"
    then nas
    else if includes lower "server"
    then server
    else default

pub record PolicyNetworkInfo : Type 0 where
  pub id : String
  pub name : String

-- `mapping === network.id`
is_id : Option String → String → Bool
is_id none id = false
is_id (some m) id = str_eq m id

-- The category of a network under the profile's mappings, the first mapping first
unfoldable pub mapped_category : Option NetworkMappings → PolicyNetworkInfo → Category
unfolding is_id
mapped_category none n = infer_category_from_name n.name
mapped_category (some m) n =
    if is_id m.work_network_id n.id
    then work
    else if is_id m.iot_network_id n.id
    then iot
    else if is_id m.guest_network_id n.id
    then guest
    else if is_id m.trusted_network_id n.id
    then trusted
    else if is_id m.nas_network_id n.id
    then nas
    else if is_id m.server_network_id n.id
    then server
    else infer_category_from_name n.name

unfoldable pub mappings_of : Option Profile → Option NetworkMappings
mappings_of none = none
mappings_of (some p) = p.network_mappings

-- The key of a network, `none` where the loop skips it
unfoldable pub network_key : PolicyNetworkInfo → Option String
network_key n = if is_empty n.id then none else some n.id

-- `buildCategoryMap`
unfoldable pub build_category_map : List PolicyNetworkInfo → Option Profile → Dict Category
unfolding mappings_of
build_category_map networks profile =
    group network_key (λ o n. mapped_category (mappings_of profile) n) [] networks
