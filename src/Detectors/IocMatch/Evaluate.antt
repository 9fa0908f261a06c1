-- ===== src/Detectors/IocMatch/Evaluate.antt =====
-- detectors/iocMatch.ts, evaluate: the loops over flows and DNS queries. An error ends the run; the
-- pages that are still read after it change nothing.
pub mod Visits
pub mod Counted
use zero_proof.Base.{ℕ, String, Option, none, some, List, [], ◌∷◌, if◌then◌else◌, or_else}
use zero_proof.Base.Dict.{Dict, get, set}
use zero_proof.Base.Text.{to_lower_case, trim, is_empty}
use zero_proof.Detection.{Evidence}
use zero_proof.Detectors.{Rows}
use zero_proof.Detectors.Paging.{PagedQuery, visit, fold_rows}
use zero_proof.Detectors.ThreatIntel.{Hit, lookup_ip, lookup_domain, normalize_domain}
use zero_proof.Detectors.Identity.{
  Platform, DetectorIdentity, unifi, adguard, normalize_ip, create_detector_identity, trimmed,
}
use zero_proof.Detectors.IocMatch.{Accumulator, Match, ip, domain, merge_finding}

pub record FlowRow : Type 0 where
  pub id : String
  pub connection_id : Option String
  pub scope_id : Option String
  pub occurred_at : ℕ
  pub src_mac : Option String
  pub src_ip : Option String
  pub src_client_name : Option String
  pub dst_ip : Option String

pub record DnsRow : Type 0 where
  pub id : String
  pub connection_id : Option String
  pub queried_at : ℕ
  pub domain : String
  pub client_ip : Option String
  pub client_name : Option String

-- The findings so far, `none` after an error
abbrev pub Found : Type 0
Found = Option (Dict Accumulator)

-- The hits of a value, from the look-ups of the page or from the table, which the page remembers
pub hits_from : Option (List Hit) → List Hit → List Hit
hits_from seen_hits hits = or_else seen_hits hits

remember : Option (List Hit) → Dict (List Hit) → String → List Hit → Dict (List Hit)
remember none seen value hits = set seen value hits
remember (some seen_hits) seen value hits = seen

module _ (platform : Platform) (evidence_key : Evidence → String) (store : Rows Hit) where
  merge_known : Option DetectorIdentity → (DetectorIdentity → Match) → Found → Found
  merge_known none match_of found = none
  merge_known (some i) match_of none = none
  merge_known (some i) match_of (some found) =
      some (merge_finding platform evidence_key (match_of i) found)

  -- A row with hits
  merge_hits : List Hit → Option DetectorIdentity → (DetectorIdentity → Match) → Found → Found
  merge_hits [] i match_of found = found
  merge_hits (h ∷ hs) i match_of found = merge_known i match_of found

  pub identity_of_flow : FlowRow → Option DetectorIdentity
  identity_of_flow f = create_detector_identity platform record {
    source_kind = unifi;
    connection_id = f.connection_id;
    scope_id = f.scope_id;
    src_ip = f.src_ip;
    src_mac = f.src_mac;
    event_id = f.id;
    observed_at = some f.occurred_at;
  }

  pub identity_of_query : DnsRow → Option DetectorIdentity
  identity_of_query q = create_detector_identity platform record {
    source_kind = adguard;
    connection_id = q.connection_id;
    scope_id = none;
    src_ip = q.client_ip;
    src_mac = none;
    event_id = q.id;
    observed_at = some q.queried_at;
  }

  pub match_flow : FlowRow → String → List Hit → DetectorIdentity → Match
  match_flow f destination hits i = record {
    identity = i;
    actor =
        or_else (trimmed f.src_client_name) (or_else i.src_mac (or_else i.src_ip "Unknown device"));
    destination = destination;
    kind = ip;
    hits = hits;
    evidence = Evidence.flow f.id;
  }

  pub match_query : DnsRow → String → List Hit → DetectorIdentity → Match
  match_query q destination hits i = record {
    identity = i;
    actor = or_else (trimmed q.client_name) (or_else i.src_ip "Unknown client");
    destination = destination;
    kind = domain;
    hits = hits;
    evidence = Evidence.dns_query q.id;
  }

  -- What a row looks up, with its destination; `none` where the loop goes on to the next
  pub flow_value : FlowRow → Option (String × String)
  flow_value f = elim (normalize_ip platform f.dst_ip) [
    | none ↦ none
    | some destination ↦ some (destination, to_lower_case (trim (or_else f.dst_ip "")))
  ]

  pub query_value : DnsRow → Option (String × String)
  query_value q =
      let destination = normalize_domain q.domain in
      if is_empty destination then none else some (destination, destination)

  -- A loop over the rows of a page, with the look-ups of the page
  module _ {A : Type 0} (value_of : A → Option (String × String)) (lookup : String → List Hit)
      (identity_of : A → Option DetectorIdentity)
      (match_of : A → String → List Hit → DetectorIdentity → Match) where
    pub at_hits : A → String → List Hit → Found → Found
    unfolding merge_hits merge_known
    at_hits a destination hits found =
        merge_hits hits (identity_of a) (match_of a destination hits) found

    page_step_at : A → Option (String × String) → Dict (List Hit) × Found → Dict (List Hit) × Found
    unfolding hits_from remember
    page_step_at a none st = st
    page_step_at a (some (destination, value)) (seen, found) =
        let hits = hits_from (get seen value) (lookup value) in
        (remember (get seen value) seen value hits, at_hits a destination hits found)

    pub page_step : Dict (List Hit) × Found → A → Dict (List Hit) × Found
    unfolding page_step_at
    page_step st a = page_step_at a (value_of a) st

    pub page_work : Found → List A → Found
    page_work found page = (fold_rows page_step ([], found) page).1

  pub flow_work : Found → List FlowRow → Found
  unfolding flow_value match_flow identity_of_flow
  flow_work = page_work flow_value (lookup_ip store) identity_of_flow match_flow

  pub query_work : Found → List DnsRow → Found
  unfolding query_value match_query identity_of_query
  query_work = page_work query_value (lookup_domain store) identity_of_query match_query

  after_flows : ℕ → PagedQuery DnsRow → Option Found → Option Found
  after_flows fuel queries none = none
  after_flows fuel queries (some found) = visit queries query_work fuel none found

  -- The accumulators at the end of both loops; the outer `none` is fuel that does not reach it.
  pub evaluate : ℕ → PagedQuery FlowRow → PagedQuery DnsRow → Option Found
  unfolding after_flows
  evaluate fuel flows queries = after_flows fuel queries (visit flows flow_work fuel none (some []))
