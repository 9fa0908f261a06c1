-- ===== src/Rules/Networks/Laws.antt =====
-- Every network has a type.
use zero_proof.Base.{String, ◌≡◌, refl, ◌≢◌, ◌↔◌, Bool, true, false, not, ◌&&◌, ◌||◌, if◌then◌else◌}
use zero_proof.Rules.Networks.{
  NetworkData, get_network_type, is_corporate_network, is_iot_network, is_guest_network,
  is_security_network, is_work_network, is_management_network, purpose_is,
}

abbrev class_name : (iot guest security work management corporate : Bool) → String
class_name iot guest security work management corporate =
    if iot
    then "iot"
    else if guest
    then "guest"
    else if security
    then "security"
    else if work
    then "work"
    else if management
    then "management"
    else if corporate
    then "corporate"
    else "unknown"

abbrev IsFallback : (i g s w m : Bool) → String → Type 0
IsFallback i g s w m name =
    (name ≢ "unknown")
    × ((name ≡ "corporate") ↔ ((i ≡ false) × (g ≡ false) × (s ≡ false) × (w ≡ false) × (m ≡ false)))

class_name-IsFallback :
    (i g s w m p : Bool)
    → IsFallback i g s w m (class_name i g s w m (p || (not i && not g && not s && not m && not w)))
class_name-IsFallback true g s w m p = (λ e. cc, (λ e. cc, λ e. cc))
class_name-IsFallback false true s w m p = (λ e. cc, (λ e. cc, λ e. cc))
class_name-IsFallback false false true w m p = (λ e. cc, (λ e. cc, λ e. cc))
class_name-IsFallback false false false true m p = (λ e. cc, (λ e. cc, λ e. cc))
class_name-IsFallback false false false false true p = (λ e. cc, (λ e. cc, λ e. cc))
class_name-IsFallback false false false false false true =
    (λ e. cc, (λ e. (refl, refl, refl, refl, refl), λ h. refl))
class_name-IsFallback false false false false false false =
    (λ e. cc, (λ e. (refl, refl, refl, refl, refl), λ h. refl))

-- `getNetworkType` never answers 'unknown', and 'corporate' is what no other class takes: a network
-- is 'corporate' exactly if it is no IoT, guest, security, work or management network, whatever its
-- purpose says.
pub get_network_type-corporate :
    (n : NetworkData)
    → (get_network_type n ≢ "unknown")
      × ((get_network_type n ≡ "corporate") ↔ (
          (is_iot_network n ≡ false)
          × (is_guest_network n ≡ false)
          × (is_security_network n ≡ false)
          × (is_work_network n ≡ false)
          × (is_management_network n ≡ false)))
unfolding get_network_type is_corporate_network
get_network_type-corporate n =
    class_name-IsFallback (is_iot_network n) (is_guest_network n) (is_security_network n)
      (is_work_network n) (is_management_network n) (purpose_is n "corporate" || purpose_is n "lan")
