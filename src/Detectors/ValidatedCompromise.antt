-- ===== src/Detectors/ValidatedCompromise.antt =====
-- detectors/validatedCompromise.ts: findings of ioc_match that IDS events of the same source and scope
-- corroborate. The stored findings are read as JSON. The query of the threats of some scopes is a
-- parameter, and so are `Date.parse` and the JSON text of an item of evidence.
pub mod Matching
pub mod Correlating
pub mod Evaluate
pub mod Results
pub mod Naming
pub mod Correlated
pub mod Supported
pub mod Whole
pub mod Candidates
use zero_proof.Base.{
  ℕ, zero, suc, String, Bool, false, Option, none, some, List, [], ◌∷◌, str_eq, if◌then◌else◌,
  length, take,
}
use zero_proof.Base.Dict.{Dict, get, set}
use zero_proof.Base.Text.{is_empty}
use zero_proof.Detection.{Evidence, DetectorContext, in_window}
use zero_proof.Detectors.{Rows}
use zero_proof.Detectors.Paging.{PagedQuery, visit, fold_rows}
use zero_proof.Detectors.Identity.{
  Platform, DetectorIdentity, unifi, normalize_ip, create_detector_identity, detector_fingerprint,
  device_identity_key,
}
use zero_proof.Detectors.Identity.Parsing.{parse_detector_identity, identity_value}
use zero_proof.Detectors.ValidatedCompromise.Candidates.{Candidate, DetectionRow, candidates}

-- The selected columns of a flow and of a threat
pub record FlowRow : Type 0 where
  pub id : String
  pub connection_id : String
  pub scope_id : Option String
  pub occurred_at : ℕ
  pub src_ip : Option String
  pub src_mac : Option String
  pub src_client_name : Option String
  pub dst_ip : Option String

pub record ThreatRow : Type 0 where
  pub id : String
  pub connection_id : String
  pub scope_id : Option String
  pub src_ip : Option String
  pub occurred_at : ℕ
  pub category : Option String
  pub threat_type : Option String
  pub subcategory : Option String

pub record FlowMatch : Type 0 where
  pub candidate : Candidate
  pub flow : FlowRow
  pub identity : DetectorIdentity

-- `Correlation`, with the fields of its result that are not constant
pub record Correlation : Type 0 where
  pub fingerprint : String
  pub actor : String
  pub src_mac : Option String
  pub identity : DetectorIdentity
  pub evidence : Dict Evidence
  pub ioc_finding_ids : List String
  pub threat_ids : List String
  pub threat_categories : List String
  pub source_ips : List String
  pub first_observed_at : ℕ
  pub last_observed_at : ℕ

-- The matches of a page by their source, and the scopes of these
pub record Matches : Type 0 where
  pub by_source : Dict (List FlowMatch)
  pub scopes : List String

pub page_size : ℕ
page_size = 200

abbrev pub drop {ℓ} : {A : Type ℓ} → ℕ → List A → List A
drop zero xs = xs
drop (suc n) [] = []
drop (suc n) (x ∷ xs) = drop n xs

-- The slices of the loop `for (offset = 0; offset < xs.length; offset += PAGE_SIZE)`. Each takes
-- something off, so that the length is fuel enough.
slices_from : ℕ → List String → List (List String)
slices_from zero xs = []
slices_from (suc n) [] = []
slices_from (suc n) (x ∷ xs) = take page_size (x ∷ xs) ∷ slices_from n (drop page_size (x ∷ xs))

pub slices : List String → List (List String)
unfolding slices_from
slices xs = slices_from (length xs) xs

-- A column that is neither null nor empty
pub present : Option String → Option String
present none = none
present (some s) = if is_empty s then none else some s

unfoldable pub text_is : Option String → String → Bool
text_is none t = false
text_is (some s) t = str_eq s t
