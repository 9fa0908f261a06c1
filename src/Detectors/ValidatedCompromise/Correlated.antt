-- ===== src/Detectors/ValidatedCompromise/Correlated.antt =====
-- What the flows and the threats of a correlation have to do with each other.
use zero_proof.Base.{
  String, ◌≡◌, refl, inl, inr, Bool, true, false, Option, none, some, List, [], ◌∷◌, ◌++◌,
  if◌then◌else◌, Bool-cases, Option-cases, or_else, All, has, All-append, take,
}
use zero_proof.Base.Dict.{get, get-All, set-All, Dict}
use mathlib.Core.List.{Mem}
use zero_proof.Detection.{DetectorContext, in_window}
use zero_proof.Detectors.Identity.{Platform, DetectorIdentity, normalize_ip, unifi}
use zero_proof.Detectors.ValidatedCompromise.Candidates.{Candidate}
use zero_proof.Detectors.ValidatedCompromise.{
  FlowRow, FlowMatch, Matches, present, page_size, slices,
}
use zero_proof.Base.Text.{is_empty, trim}
use zero_proof.Detectors.{Rows}
use zero_proof.Detectors.Paging.Kept.{OnSome, fold_rows-keeps, All-take, All-any, All-Mem}
use zero_proof.Detectors.Identity.Laws.{create_detector_identity-named}
use zero_proof.Detectors.ValidatedCompromise.Naming.{Names, AreNaming, naming_at}
use zero_proof.Detectors.ValidatedCompromise.Matching.{
  source_key, matches, add_match, add_matches, flow_at, flow_step, matches_of, slice_step,
  flow_identified, identity_of_flow, wanted_flow, keys_of,
}

-- A flow with an id
abbrev pub HasId : FlowRow → Type 0
HasId f = is_empty (trim f.id) ≡ false

module _ (platform : Platform) (ctx : DetectorContext) (flows : Rows FlowRow)
    (IsStored : Candidate → Type 0) where
  -- A flow that a query of the flows returns
  abbrev pub IsFound : FlowRow → Type 0
  IsFound f = (ids : List String) × Mem f (flows.find_many (wanted_flow platform ctx ids))

  -- A stored flow in the window, with the scope and the address of its source, whose key this is, and
  -- with the identity made of it; the candidate is stored and names the flow, its connection, scope
  -- and machine are the flow's, and the flow's destination is the candidate's indicator.
  abbrev pub IsFlowMatch : String → FlowMatch → Type 0
  IsFlowMatch key m =
      (scope : String) × (ip : String) × (key ≡ source_key platform scope ip)
      × IsFound m.flow
      × IsStored m.candidate
      × (has m.candidate.flow_ids m.flow.id ≡ true)
      × (in_window ctx m.flow.occurred_at ≡ true)
      × (present m.flow.scope_id ≡ some scope)
      × (normalize_ip platform m.flow.src_ip ≡ some ip)
      × (identity_of_flow platform ctx m.flow scope ip ≡ some m.identity)
      × (matches platform ctx m.candidate m.flow scope m.identity ≡ true)

  abbrev pub AreMatches : String × List FlowMatch → Type 0
  AreMatches e = All (IsFlowMatch e.0) e.1

  abbrev pub IsGood : Matches → Type 0
  IsGood m = All AreMatches m.by_source

  pub at_key :
      (key : String) (m : Matches)
      → IsGood m
      → All (IsFlowMatch key) (or_else (get m.by_source key) [])
  at_key key m h = elim (Option-cases (get m.by_source key)) [
    | inl missing ↦ rw missing tt
    | inr (ms, found) ↦ rw found (get-All AreMatches m.by_source key ms h found)
  ]

  -- One candidate of a flow
  added-IsGood :
      (c : Candidate) (f : FlowRow) (scope ip : String) (i : DetectorIdentity) (m : Matches)
      → Names IsStored f.id c
      → IsFound f
      → in_window ctx f.occurred_at ≡ true
      → present f.scope_id ≡ some scope
      → normalize_ip platform f.src_ip ≡ some ip
      → identity_of_flow platform ctx f scope ip ≡ some i
      → IsGood m
      → let more : FlowMatch = record { candidate = c; flow = f; identity = i } in
        IsGood (
          if matches platform ctx c f scope i
          then add_match platform ctx (source_key platform scope ip) scope more m
          else m)
  unfolding add_match
  added-IsGood c f scope ip i m names from window scoped addressed made h =
      elim (Bool-cases (matches platform ctx c f scope i)) [
        | inl same ↦
            let key = source_key platform scope ip in
            let more : FlowMatch = record { candidate = c; flow = f; identity = i } in
            let all_match =
              All-append (IsFlowMatch key) (or_else (get m.by_source key) []) (more ∷ [])
                (at_key key m h)
                (
                  (scope, ip, refl, from, names.0, names.1, window, scoped, addressed, made, same),
                  tt,
                ) in
            rw same (
              set-All AreMatches m.by_source key (or_else (get m.by_source key) [] ++ more ∷ []) h
                all_match)
        | inr other ↦ rw other h
      ]

  add_matches-IsGood :
      (cs : List Candidate) (f : FlowRow) (scope ip : String) (i : DetectorIdentity) (m : Matches)
      → All (Names IsStored f.id) cs
      → IsFound f
      → in_window ctx f.occurred_at ≡ true
      → present f.scope_id ≡ some scope
      → normalize_ip platform f.src_ip ≡ some ip
      → identity_of_flow platform ctx f scope ip ≡ some i
      → IsGood m
      → IsGood (add_matches platform ctx f scope ip i cs m)
  unfolding add_matches
  add_matches-IsGood [] f scope ip i m names from window scoped addressed made h = h
  add_matches-IsGood (c ∷ cs) f scope ip i m names from window scoped addressed made h =
      add_matches-IsGood cs f scope ip i
        (let more : FlowMatch = record { candidate = c; flow = f; identity = i } in
          if matches platform ctx c f scope i
          then add_match platform ctx (source_key platform scope ip) scope more m
          else m)
        names.1 from window scoped addressed made
        (added-IsGood c f scope ip i m names.0 from window scoped addressed made h)

  flow_at-IsGood :
      (f : FlowRow) (cs : List Candidate) (m : Matches) (o p : Option String)
      → present f.scope_id ≡ o
      → normalize_ip platform f.src_ip ≡ p
      → HasId f
      → All (Names IsStored f.id) cs
      → IsFound f
      → IsGood m
      → OnSome IsGood (flow_at platform ctx f cs m o p)
  unfolding flow_at flow_identified identity_of_flow
  flow_at-IsGood f cs m none p scoped addressed named names from h = h
  flow_at-IsGood f cs m (some scope) none scoped addressed named names from h = h
  flow_at-IsGood f cs m (some scope) (some ip) scoped addressed named names from h =
      elim (Bool-cases (in_window ctx f.occurred_at)) [
        | inl window ↦
            let known =
              create_detector_identity-named platform
                record {
                  source_kind = unifi;
                  connection_id = some f.connection_id;
                  scope_id = some scope;
                  src_ip = some ip;
                  src_mac = f.src_mac;
                  event_id = f.id;
                  observed_at = some f.occurred_at;
                }
                named in
            rw (window, known.1)
              (add_matches-IsGood cs f scope ip known.0 m names from window scoped addressed known.1
                h)
        | inr out ↦ rw out h
      ]

  flow_step-IsGood :
      (index : Dict (List Candidate)) (o : Option Matches) (f : FlowRow)
      → All (AreNaming IsStored) index
      → OnSome IsGood o
      → HasId f × IsFound f
      → OnSome IsGood (flow_step platform ctx index o f)
  unfolding flow_step
  flow_step-IsGood index none f naming h named = h
  flow_step-IsGood index (some m) f naming h named =
      flow_at-IsGood f (or_else (get index f.id) []) m (present f.scope_id)
        (normalize_ip platform f.src_ip) refl refl named.0 (naming_at IsStored index f.id naming)
        named.1 h

  -- The flows that a query returns, in a list
  returned :
      (ids : List String) (fs : List FlowRow)
      → All HasId fs
      → All (λ f. Mem f (flows.find_many (wanted_flow platform ctx ids))) fs
      → All (λ f. HasId f × IsFound f) fs
  returned ids [] h k = tt
  returned ids (f ∷ fs) h k = ((h.0, (ids, k.0)), returned ids fs h.1 k.1)

  -- Where the stored flows have ids, the matches of a page are found, and each is one.
  pub matches_of-IsGood :
      (index : Dict (List Candidate))
      → All (AreNaming IsStored) index
      → ((p : FlowRow → Bool) → All HasId (flows.find_many p))
      → OnSome IsGood (matches_of platform ctx flows index)
  unfolding matches_of slice_step
  matches_of-IsGood index naming named =
      fold_rows-keeps (OnSome IsGood) (λ (ids : List String). ids ≡ ids)
        (slice_step platform ctx flows index)
        (λ o ids h u.
          let found = flows.find_many (wanted_flow platform ctx ids) in
          fold_rows-keeps (OnSome IsGood) (λ f. HasId f × IsFound f) (flow_step platform ctx index)
            (λ p f g n. flow_step-IsGood index p f naming g n) (take page_size found) o h
            (All-take (λ f. HasId f × IsFound f) page_size found
              (returned ids found (named (wanted_flow platform ctx ids)) (All-Mem found))))
        (slices (keys_of index)) (some (record { by_source = []; scopes = [] })) tt
        (All-any (λ (ids : List String). ids ≡ ids) (slices (keys_of index)) (λ ids. refl))
