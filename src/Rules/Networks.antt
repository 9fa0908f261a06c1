-- ===== src/Rules/Networks.antt =====
-- ruleEngine.ts, the classes of networks. A key that is missing or null is an absent name or purpose.
pub mod Laws
use zero_proof.Base.{String, Bool, not, ◌&&◌, ◌||◌, Option, str_eq, if◌then◌else◌, or_else}
use zero_proof.Base.Text.{includes, to_lower_case}

pub record NetworkData : Type 0 where
  pub name : Option String
  pub purpose : Option String

-- `(network.name || '').toLowerCase()`
lower_name : NetworkData → String
lower_name n = to_lower_case (or_else n.name "")

purpose_is : NetworkData → String → Bool
purpose_is n p = str_eq (or_else n.purpose "") p

pub is_iot_network : NetworkData → Bool
unfolding lower_name purpose_is
is_iot_network n =
    includes (lower_name n) "iot"
    || includes (lower_name n) "smart"
    || includes (lower_name n) "device"
    || purpose_is n "iot"

pub is_guest_network : NetworkData → Bool
unfolding lower_name purpose_is
is_guest_network n = includes (lower_name n) "guest" || purpose_is n "guest"

pub is_security_network : NetworkData → Bool
unfolding lower_name
is_security_network n =
    includes (lower_name n) "camera"
    || includes (lower_name n) "security"
    || includes (lower_name n) "nvr"
    || includes (lower_name n) "surveillance"

pub is_work_network : NetworkData → Bool
unfolding lower_name
is_work_network n =
    includes (lower_name n) "work"
    || includes (lower_name n) "corporate"
    || includes (lower_name n) "office"
    || includes (lower_name n) "employee"

pub is_management_network : NetworkData → Bool
unfolding lower_name purpose_is
is_management_network n =
    includes (lower_name n) "management"
    || includes (lower_name n) "mgmt"
    || purpose_is n "management"

pub is_corporate_network : NetworkData → Bool
unfolding purpose_is
is_corporate_network n =
    purpose_is n "corporate"
    || purpose_is n "lan"
    || (not (is_iot_network n)
        && not (is_guest_network n)
        && not (is_security_network n)
        && not (is_management_network n)
        && not (is_work_network n))

pub get_network_type : NetworkData → String
get_network_type n =
    if is_iot_network n
    then "iot"
    else if is_guest_network n
    then "guest"
    else if is_security_network n
    then "security"
    else if is_work_network n
    then "work"
    else if is_management_network n
    then "management"
    else if is_corporate_network n
    then "corporate"
    else "unknown"
