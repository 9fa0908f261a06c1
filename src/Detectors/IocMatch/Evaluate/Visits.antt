-- ===== src/Detectors/IocMatch/Evaluate/Visits.antt =====
-- The run over flows and queries ends, and the look-ups that a page remembers change nothing.
use zero_proof.Base.{
  ℕ, ◌<◌, String, ◌≡◌, refl, ap, ◌∙◌, inl, inr, Option, none, some, List, [], ◌∷◌, str_eq, eq_iff,
  Bool-cases, Option-cases, length,
}
use zero_proof.Base.Dict.{Dict, get, set, get-set}
use zero_proof.Detection.{Evidence}
use zero_proof.Detectors.{Rows}
use zero_proof.Detectors.Paging.{PagedQuery, fold_rows}
use zero_proof.Detectors.Paging.Visits.{visit-all, visit-cong}
use zero_proof.Detectors.ThreatIntel.{Hit, lookup_ip, lookup_domain}
use zero_proof.Detectors.Identity.{Platform, DetectorIdentity}
use zero_proof.Detectors.IocMatch.{Match}
use zero_proof.Detectors.IocMatch.Evaluate.{
  FlowRow, DnsRow, Found, hits_from, remember, at_hits, page_step_at, page_step, page_work,
  flow_work, query_work, evaluate, after_flows, flow_value, query_value, match_flow, match_query,
  identity_of_flow, identity_of_query,
}

module _ (platform : Platform) (evidence_key : Evidence → String) (store : Rows Hit) where
  module _ {A : Type 0} (value_of : A → Option (String × String)) (lookup : String → List Hit)
      (identity_of : A → Option DetectorIdentity)
      (match_of : A → String → List Hit → DetectorIdentity → Match) where
    unfoldable pub plain_at : A → Option (String × String) → Found → Found
    plain_at a none found = found
    plain_at a (some (destination, value)) found =
        at_hits platform evidence_key store value_of lookup identity_of match_of a destination
          (lookup value) found

    -- The round of a row that looks its value up in the table
    unfoldable pub plain_step : Found → A → Found
    plain_step found a = plain_at a (value_of a) found

    -- What is remembered is what the table has.
    abbrev Sound : Dict (List Hit) → Type 0
    Sound seen =
        (value : String) (hits : List Hit) → get seen value ≡ some hits → hits ≡ lookup value

    set-Sound :
        (seen : Dict (List Hit)) (value : String)
        → Sound seen
        → Sound (set seen value (lookup value))
    set-Sound seen value h v hits e = elim (Bool-cases (str_eq value v)) [
      | inl same ↦
          let found : some (lookup value) ≡ some hits =
            (rw (get-set seen value v (lookup value), same) at e) in
          let at_v : value ≡ v = (eq_iff value v).0 same in cc
      | inr other ↦ h v hits (rw (get-set seen value v (lookup value), other) at e)
    ]

    page_step_at-plain :
        (a : A) (o : Option (String × String)) (seen : Dict (List Hit)) (found : Found)
        → Sound seen
        → ((page_step_at platform evidence_key store value_of lookup identity_of match_of a o
              (seen, found)).1
            ≡ plain_at a o found)
          × Sound
              (page_step_at platform evidence_key store value_of lookup identity_of match_of a o
                (seen, found)).0
    unfolding page_step_at plain_at hits_from remember
    page_step_at-plain a none seen found h = (refl, h)
    page_step_at-plain a (some (destination, value)) seen found h =
        elim (Option-cases (get seen value)) [
          | inl e ↦ rw e (refl, set-Sound seen value h)
          | inr (hits, e) ↦ rw e (rw (h value hits e) (refl, h))
        ]

    page-plain :
        (page : List A) (seen : Dict (List Hit)) (found : Found)
        → Sound seen
        → (fold_rows
            (page_step platform evidence_key store value_of lookup identity_of match_of)
            (seen, found)
            page).1
          ≡ fold_rows plain_step found page
    unfolding page_step plain_step
    page-plain [] seen found h = refl
    page-plain (a ∷ page) seen found h =
        let next =
          page_step_at platform evidence_key store value_of lookup identity_of match_of a
            (value_of a) (seen, found) in
        let now = page_step_at-plain a (value_of a) seen found h in
        page-plain page next.0 next.1 now.1 ∙ ap (λ f. fold_rows plain_step f page) now.0

  -- The round of a flow and of a DNS query, each with its own look-up
  unfoldable pub plain_flow : Found → FlowRow → Found
  plain_flow =
      plain_step (flow_value platform evidence_key store) (lookup_ip store)
        (identity_of_flow platform evidence_key store) (match_flow platform evidence_key store)

  unfoldable pub plain_query : Found → DnsRow → Found
  plain_query =
      plain_step (query_value platform evidence_key store) (lookup_domain store)
        (identity_of_query platform evidence_key store) (match_query platform evidence_key store)

  nothing-Sound :
      (lookup : String → List Hit) (v : String) (hits : List Hit)
      → get [] v ≡ some hits
      → hits ≡ lookup v
  unfolding get
  nothing-Sound lookup v hits e = cc

  flow_work-plain :
      (found : Found) (page : List FlowRow)
      → flow_work platform evidence_key store found page ≡ fold_rows plain_flow found page
  unfolding flow_work page_work plain_flow
  flow_work-plain found page = page-plain _ _ _ _ page [] found (nothing-Sound (lookup_ip store))

  query_work-plain :
      (found : Found) (page : List DnsRow)
      → query_work platform evidence_key store found page ≡ fold_rows plain_query found page
  unfolding query_work page_work plain_query
  query_work-plain found page =
      page-plain _ _ _ _ page [] found (nothing-Sound (lookup_domain store))

  -- With more fuel than there are rows in either window, the run ends: every flow of the window has
  -- been matched once, in the order of the ids, and then every DNS query, as if each had looked up
  -- its value in the table of indicators.
  pub evaluate-visits :
      (fuel : ℕ) (flows : PagedQuery FlowRow) (queries : PagedQuery DnsRow)
      → length flows.rows < fuel
      → length queries.rows < fuel
      → evaluate platform evidence_key store fuel flows queries
        ≡ some (fold_rows plain_query (fold_rows plain_flow (some []) flows.rows) queries.rows)
  unfolding evaluate after_flows
  evaluate-visits fuel flows queries hf hq =
      let start = fold_rows plain_flow (some []) flows.rows in
      rw
        (
          visit-cong flows (flow_work platform evidence_key store) (fold_rows plain_flow)
              flow_work-plain fuel none (some []),
          visit-all flows plain_flow fuel (some []) hf,
        )
        (visit-cong queries (query_work platform evidence_key store) (fold_rows plain_query)
            query_work-plain fuel none start
          ∙ visit-all queries plain_query fuel start hq)
