-- ===== src/Detectors/ValidatedCompromise/Candidates.antt =====
-- detectors/validatedCompromise.ts, candidateFrom: the findings of ioc_match that can be corroborated.
use zero_proof.Base.{
  ℕ, String, Bool, ◌&&◌, ◌||◌, Option, none, some, List, [], ◌∷◌, ◌++◌, str_eq, if◌then◌else◌,
  is_some, include,
}
use zero_proof.Base.Text.{is_empty}
use zero_proof.Rules.Value.{
  Value, Items, undefined, str, obj, arr, no_items, element, field_at, strict_eq,
}
use zero_proof.Detection.{Evidence}
use zero_proof.Detectors.Identity.{Platform, DetectorIdentity, source_text, normalize_ip}
use zero_proof.Detectors.Identity.Parsing.{parse_detector_identity, string_in}

-- A stored finding
pub record DetectionRow : Type 0 where
  pub id : String
  pub metadata : Value
  pub evidence : Value

pub record Candidate : Type 0 where
  pub id : String
  pub identity : DetectorIdentity
  pub indicator : String
  pub flow_ids : List String
  pub indicators : List Evidence

-- `record(value)?.[key]`
record_field : Value → String → Value
record_field (obj fs) k = field_at fs k
record_field _ k = undefined

-- A machine of the controller, with its connection and site; what an identity has is not empty.
is_usable : DetectorIdentity → Bool
is_usable i =
    str_eq (source_text i.source_kind) "unifi"
    && is_some i.connection_id
    && is_some i.scope_id
    && (is_some i.src_mac || is_some i.src_ip)

nonblank : Option String → Option String
nonblank none = none
nonblank (some s) = if is_empty s then none else some s

-- The id of an item of evidence that is a flow
flow_id_in : Value → Option String
unfolding nonblank record_field
flow_id_in v =
    if strict_eq (record_field v "kind") (str "flow")
    then nonblank (string_in (record_field v "id"))
    else none

with_id : List String → Option String → List String
with_id ids none = ids
with_id ids (some id) = include ids id

flow_ids_in : List String → Items → List String
unfolding flow_id_in with_id
flow_ids_in ids no_items = ids
flow_ids_in ids (element x xs) = flow_ids_in (with_id ids (flow_id_in x)) xs

module _ (platform : Platform) (date_parse : String → Option ℕ) where
  fed_by : String → Option String → Option String → List Evidence
  fed_by indicator (some ip) (some feed) =
      if str_eq ip indicator then Evidence.ioc indicator feed ∷ [] else []
  fed_by indicator _ _ = []

  indicators_in : String → Items → List Evidence
  unfolding fed_by nonblank record_field
  indicators_in indicator no_items = []
  indicators_in indicator (element x xs) =
      (if strict_eq (record_field x "kind") (str "ioc")
        then fed_by indicator (normalize_ip platform (string_in (record_field x "ioc")))
            (nonblank (string_in (record_field x "feed")))
        else [])
      ++ indicators_in indicator xs

  backed : String → DetectorIdentity → String → List String → List Evidence → Option Candidate
  backed id i indicator [] iocs = none
  backed id i indicator (f ∷ fs) [] = none
  backed id i indicator (f ∷ fs) (e ∷ es) = some record {
    id = id;
    identity = i;
    indicator = indicator;
    flow_ids = f ∷ fs;
    indicators = e ∷ es;
  }

  candidate_of : DetectionRow → Option DetectorIdentity → Option String → Value → Option Candidate
  unfolding backed indicators_in flow_ids_in is_usable
  candidate_of row (some i) (some indicator) (arr items) =
      if is_usable i
      then backed row.id i indicator (flow_ids_in [] items) (indicators_in indicator items)
      else none
  candidate_of row _ _ _ = none

  pub candidate_from : DetectionRow → Option Candidate
  unfolding candidate_of record_field
  candidate_from row =
      candidate_of row
        (parse_detector_identity platform date_parse (record_field row.metadata "identity"))
        (normalize_ip platform (string_in (record_field row.metadata "matchedValue"))) row.evidence

  unfoldable pub kept_candidate : Option Candidate → List Candidate → List Candidate
  kept_candidate none cs = cs
  kept_candidate (some c) cs = c ∷ cs

  unfoldable pub candidates : List DetectionRow → List Candidate
  unfolding kept_candidate
  candidates [] = []
  candidates (row ∷ rows) = kept_candidate (candidate_from row) (candidates rows)
