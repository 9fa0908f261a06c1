-- ===== src/Detectors/ThreatIntel.antt =====
-- services/threatIntel/iocFeedService.ts, lookupIp and lookupDomain: the stored indicators of an
-- address or of a domain and its parents. The table is a parameter.
use zero_proof.Base.{String, ◌&&◌, Option, List, [], ◌∷◌, str_eq, if◌then◌else◌, has}
use zero_proof.Base.Text.{to_lower_case, trim, without_final_dot, split, join, is_empty}
use zero_proof.Detectors.{Rows}

-- `IocLookupHit`, the fields that are read
pub record Hit : Type 0 where
  pub feed : String
  pub kind : String
  pub value : String
  pub category : Option String
  pub severity : Option String

pub normalize_domain : String → String
normalize_domain value = without_final_dot (to_lower_case (trim value))

-- The parent domains with two labels at least
parents : List String → List String
parents (a ∷ b ∷ c ∷ more) = join "." (b ∷ c ∷ more) ∷ parents (b ∷ c ∷ more)
parents _ = []

pub lookup_ip : Rows Hit → String → List Hit
lookup_ip store text =
    let value = to_lower_case (trim text) in
    if is_empty value then [] else store.find_many (λ h. str_eq h.kind "ip" && str_eq h.value value)

pub lookup_domain : Rows Hit → String → List Hit
unfolding parents
lookup_domain store text =
    let name = normalize_domain text in
    if is_empty name
    then []
    else store.find_many
        (λ h. str_eq h.kind "domain" && has (name ∷ parents (split b'.' name)) h.value)
