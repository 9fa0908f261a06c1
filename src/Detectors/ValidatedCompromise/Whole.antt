-- ===== src/Detectors/ValidatedCompromise/Whole.antt =====
-- The run of validated_compromise: it ends, and each correlation stands on events of one source.
use zero_proof.Base.{
  ℕ, ◌<◌, String, ◌≡◌, refl, inl, inr, Bool, Option, none, some, List, [], ◌∷◌, length, All,
  Option-cases,
}
use zero_proof.Base.Dict.{Dict}
use mathlib.Core.List.{Mem}
use zero_proof.Detection.{Evidence, DetectorContext}
use zero_proof.Detectors.{Rows}
use zero_proof.Detectors.Paging.{PagedQuery, visit, fold_rows}
use zero_proof.Detectors.Paging.Kept.{OnSome, fold_rows-keeps, visit-keeps, All-any, All-Mem}
use zero_proof.Detectors.Identity.{Platform}
use zero_proof.Detectors.ValidatedCompromise.{FlowRow, ThreatRow, Matches, Correlation, slices}
use zero_proof.Detectors.ValidatedCompromise.Candidates.{
  DetectionRow, Candidate, candidate_from, kept_candidate, candidates,
}
use zero_proof.Detectors.ValidatedCompromise.Matching.{by_flow_id, matches_of}
use zero_proof.Detectors.ValidatedCompromise.Correlating.{threat_step}
use zero_proof.Detectors.ValidatedCompromise.Evaluate.{
  scopes_step, correlate_page, page_work, evaluate,
}
use zero_proof.Detectors.ValidatedCompromise.Naming.{by_flow_id-AreNaming}
use zero_proof.Detectors.ValidatedCompromise.Correlated.{IsGood, HasId, matches_of-IsGood}
use zero_proof.Detectors.ValidatedCompromise.Supported.{IsSupported, threat_step-IsSupported}

module _ (platform : Platform) (date_parse : String → Option ℕ) where
  -- The candidate is made of a stored finding.
  abbrev pub IsCandidateOf : PagedQuery DetectionRow → Candidate → Type 0
  IsCandidateOf findings c =
      (row : DetectionRow) × Mem row findings.rows
      × (candidate_from platform date_parse row ≡ some c)

module _ (platform : Platform) (date_parse : String → Option ℕ) (evidence_key : Evidence → String)
    (ctx : DetectorContext) (fuel : ℕ) (flows : Rows FlowRow)
    (threats : List String → PagedQuery ThreatRow)
    (enough : (scopes : List String) → length (PagedQuery.rows (threats scopes)) < fuel)
    (named : (p : FlowRow → Bool) → All HasId (flows.find_many p))
    (findings : PagedQuery DetectionRow) where
  abbrev Stands : Dict Correlation → Type 0
  Stands d =
      All (IsSupported platform ctx flows threats (IsCandidateOf platform date_parse findings)) d

  scopes_step-Stands :
      (ms : Matches) (o : Option (Dict Correlation)) (scopes : List String)
      → IsGood platform ctx flows (IsCandidateOf platform date_parse findings) ms
      → OnSome Stands o
      → OnSome Stands
          (scopes_step platform date_parse evidence_key ctx fuel flows threats ms o scopes)
  unfolding scopes_step
  scopes_step-Stands ms none scopes good h = h
  scopes_step-Stands ms (some d) scopes good h =
      let query = threats scopes in
      let Told = λ (t : ThreatRow). Mem t (PagedQuery.rows query) in
      visit-keeps query (fold_rows (threat_step platform date_parse evidence_key ctx ms)) Stands
        Told (All-Mem (PagedQuery.rows query))
        (λ e page k rows.
          fold_rows-keeps Stands Told (threat_step platform date_parse evidence_key ctx ms)
            (λ e' t k' told.
              threat_step-IsSupported platform ctx flows threats
                (IsCandidateOf platform date_parse findings) date_parse evidence_key ms e' t
                (scopes, told) good k')
            page e k rows)
        fuel d (enough scopes) h

  correlate_page-Stands :
      (o : Option Matches) (d : Dict Correlation)
      → OnSome (IsGood platform ctx flows (IsCandidateOf platform date_parse findings)) o
      → Stands d
      → OnSome Stands (correlate_page platform date_parse evidence_key ctx fuel flows threats o d)
  unfolding correlate_page
  correlate_page-Stands none d good h = absurd good
  correlate_page-Stands (some ms) d good h =
      fold_rows-keeps (OnSome Stands) (λ (s : List String). s ≡ s)
        (scopes_step platform date_parse evidence_key ctx fuel flows threats ms)
        (λ o scopes k u. scopes_step-Stands ms o scopes good k) (slices ms.scopes) (some d) h
        (All-any (λ (s : List String). s ≡ s) (slices ms.scopes) (λ s. refl))

  candidates-IsCandidateOf :
      (page : List DetectionRow)
      → All (λ row. Mem row findings.rows) page
      → All (IsCandidateOf platform date_parse findings) (candidates platform date_parse page)
  unfolding candidates kept_candidate
  candidates-IsCandidateOf [] h = tt
  candidates-IsCandidateOf (row ∷ rows) h =
      elim (Option-cases (candidate_from platform date_parse row)) [
        | inl skipped ↦ rw skipped (candidates-IsCandidateOf rows h.1)
        | inr (c, made) ↦ rw made ((row, h.0, made), candidates-IsCandidateOf rows h.1)
      ]

  page_work-Stands :
      (o : Option (Dict Correlation)) (page : List DetectionRow)
      → OnSome Stands o
      → All (λ row. Mem row findings.rows) page
      → OnSome Stands (page_work platform date_parse evidence_key ctx fuel flows threats o page)
  unfolding page_work
  page_work-Stands none page h rows = h
  page_work-Stands (some d) page h rows =
      let cs = candidates platform date_parse page in
      correlate_page-Stands (matches_of platform ctx flows (by_flow_id cs [])) d
        (matches_of-IsGood platform ctx flows (IsCandidateOf platform date_parse findings)
          (by_flow_id cs [])
          (by_flow_id-AreNaming (IsCandidateOf platform date_parse findings) cs []
            (candidates-IsCandidateOf page rows) tt)
          named)
        h

  -- With more fuel than there are stored findings and threats, and where each stored flow has an id,
  -- the run ends without an error, and each correlation that it makes stands on a stored flow, on the
  -- candidate made of a stored finding whose evidence names that flow, and on a stored IDS event, flow
  -- and event in the window, with one connection and one key of scope and source address, the flow to
  -- the finding's indicator and from the finding's machine; the correlation names the finding and the
  -- event, is under the fingerprint of the flow's machine, and its times are in the window.
  pub evaluate-IsSupported :
      length findings.rows < fuel
      → (found : Dict Correlation) × (evaluate platform date_parse evidence_key ctx fuel flows
            threats findings
          ≡ some (some found))
        × All
            (IsSupported platform ctx flows threats (IsCandidateOf platform date_parse findings))
            found
  unfolding evaluate
  evaluate-IsSupported below =
      ended
        (visit findings (page_work platform date_parse evidence_key ctx fuel flows threats) fuel
          none (some []))
        (visit-keeps findings (page_work platform date_parse evidence_key ctx fuel flows threats)
          (OnSome Stands) (λ row. Mem row findings.rows) (All-Mem findings.rows) page_work-Stands
          fuel (some []) below tt)
    where
      ended :
          (o : Option (Option (Dict Correlation)))
          → OnSome (OnSome Stands) o
          → (found : Dict Correlation) × (o ≡ some (some found)) × Stands found
      ended none h = absurd h
      ended (some none) h = absurd h
      ended (some (some found)) h = (found, refl, h)
