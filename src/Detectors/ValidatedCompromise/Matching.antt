-- ===== src/Detectors/ValidatedCompromise/Matching.antt =====
-- detectors/validatedCompromise.ts: the flows that stored findings name, by their source.
use zero_proof.Base.{
  String, Bool, ◌&&◌, Option, none, some, List, [], ◌∷◌, ◌++◌, str_eq, if◌then◌else◌, or_else,
  is_some, take, has, include,
}
use zero_proof.Base.Dict.{Dict, get, set}
use zero_proof.Detection.{DetectorContext, in_window}
use zero_proof.Detectors.{Rows}
use zero_proof.Detectors.Paging.{fold_rows}
use zero_proof.Detectors.Identity.{
  Platform, DetectorIdentity, unifi, normalize_ip, create_detector_identity, device_identity_key,
}
use zero_proof.Detectors.ValidatedCompromise.Candidates.{Candidate}
use zero_proof.Detectors.ValidatedCompromise.{
  FlowRow, FlowMatch, Matches, page_size, slices, present, text_is,
}

-- `byFlowId`
unfoldable pub index_ids : Candidate → List String → Dict (List Candidate) → Dict (List Candidate)
index_ids c [] d = d
index_ids c (id ∷ ids) d = index_ids c ids (set d id (or_else (get d id) [] ++ c ∷ []))

unfoldable pub by_flow_id : List Candidate → Dict (List Candidate) → Dict (List Candidate)
unfolding index_ids
by_flow_id [] d = d
by_flow_id (c ∷ cs) d = by_flow_id cs (index_ids c c.flow_ids d)

unfoldable pub keys_of : Dict (List Candidate) → List String
keys_of [] = []
keys_of ((k, cs) ∷ d) = k ∷ keys_of d

unfoldable pub source_key : Platform → String → String → String
source_key platform scope ip = platform.stringify (some scope ∷ some ip ∷ [])

module _ (platform : Platform) (ctx : DetectorContext) where
  unfoldable pub identity_of_flow : FlowRow → String → String → Option DetectorIdentity
  identity_of_flow f scope ip = create_detector_identity platform record {
    source_kind = unifi;
    connection_id = some f.connection_id;
    scope_id = some scope;
    src_ip = some ip;
    src_mac = f.src_mac;
    event_id = f.id;
    observed_at = some f.occurred_at;
  }

  -- Not the `continue` of the loop over the candidates of a flow
  unfoldable pub matches : Candidate → FlowRow → String → DetectorIdentity → Bool
  unfolding text_is
  matches c f scope i =
      text_is c.identity.connection_id f.connection_id
      && text_is c.identity.scope_id scope
      && str_eq (device_identity_key platform c.identity) (device_identity_key platform i)
      && text_is (normalize_ip platform f.dst_ip) c.indicator

  unfoldable pub add_match : String → String → FlowMatch → Matches → Matches
  add_match key scope more m = record {
    by_source = set m.by_source key (or_else (get m.by_source key) [] ++ more ∷ []);
    scopes = include m.scopes scope;
  }

  unfoldable pub add_matches :
      FlowRow → String → String → DetectorIdentity → List Candidate → Matches → Matches
  unfolding add_match
  add_matches f scope ip i [] m = m
  add_matches f scope ip i (c ∷ cs) m =
      let more : FlowMatch = record { candidate = c; flow = f; identity = i } in
      add_matches f scope ip i cs
        (if matches c f scope i then add_match (source_key platform scope ip) scope more m else m)

  -- An identity that cannot be made is the error of the run.
  unfoldable pub flow_identified :
      FlowRow
      → String
      → String
      → List Candidate
      → Matches
      → Option DetectorIdentity
      → Option Matches
  flow_identified f scope ip cs m none = none
  flow_identified f scope ip cs m (some i) = some (add_matches f scope ip i cs m)

  unfoldable pub flow_at :
      FlowRow → List Candidate → Matches → Option String → Option String → Option Matches
  unfolding flow_identified
  flow_at f cs m (some scope) (some ip) =
      if in_window ctx f.occurred_at
      then flow_identified f scope ip cs m (identity_of_flow f scope ip)
      else some m
  flow_at f cs m _ _ = some m

  unfoldable pub flow_step : Dict (List Candidate) → Option Matches → FlowRow → Option Matches
  unfolding flow_at
  flow_step index none f = none
  flow_step index (some m) f =
      flow_at f (or_else (get index f.id) []) m (present f.scope_id)
        (normalize_ip platform f.src_ip)

  -- The rows of one query of flows; their ids are distinct, so that `take` cuts nothing off.
  unfoldable pub wanted_flow : List String → FlowRow → Bool
  wanted_flow ids f = has ids f.id && in_window ctx f.occurred_at && is_some f.scope_id

  unfoldable pub slice_step :
      Rows FlowRow → Dict (List Candidate) → Option Matches → List String → Option Matches
  unfolding flow_step wanted_flow
  slice_step flows index m ids =
      fold_rows (flow_step index) m (take page_size (flows.find_many (wanted_flow ids)))

  unfoldable pub matches_of : Rows FlowRow → Dict (List Candidate) → Option Matches
  unfolding slice_step
  matches_of flows index =
      fold_rows (slice_step flows index) (some (record { by_source = []; scopes = [] }))
        (slices (keys_of index))
