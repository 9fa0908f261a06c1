-- ===== src/Detectors/ValidatedCompromise/Evaluate.antt =====
-- detectors/validatedCompromise.ts, evaluate: the pages of findings and of threats.
use zero_proof.Base.{ℕ, String, Option, none, some, List, []}
use zero_proof.Base.Dict.{Dict}
use zero_proof.Detection.{Evidence, DetectorContext}
use zero_proof.Detectors.{Rows}
use zero_proof.Detectors.Paging.{PagedQuery, visit, fold_rows}
use zero_proof.Detectors.Identity.{Platform}
use zero_proof.Detectors.ValidatedCompromise.Candidates.{DetectionRow, candidates}
use zero_proof.Detectors.ValidatedCompromise.{FlowRow, ThreatRow, Correlation, Matches, slices}
use zero_proof.Detectors.ValidatedCompromise.Matching.{by_flow_id, matches_of}
use zero_proof.Detectors.ValidatedCompromise.Correlating.{threat_step}

module _ (platform : Platform) (date_parse : String → Option ℕ) (evidence_key : Evidence → String)
    (ctx : DetectorContext) where
  -- The pages of the threats of some scopes; `none` is fuel that does not reach their end.
  module _ (fuel : ℕ) (flows : Rows FlowRow) (threats : List String → PagedQuery ThreatRow) where
    unfoldable pub scopes_step :
        Matches → Option (Dict Correlation) → List String → Option (Dict Correlation)
    scopes_step ms none scopes = none
    scopes_step ms (some d) scopes =
        visit (threats scopes) (fold_rows (threat_step platform date_parse evidence_key ctx ms))
          fuel none d

    unfoldable pub correlate_page : Option Matches → Dict Correlation → Option (Dict Correlation)
    unfolding scopes_step
    correlate_page none d = none
    correlate_page (some ms) d = fold_rows (scopes_step ms) (some d) (slices ms.scopes)

    -- One page of stored findings; `none` is an error, or too little fuel.
    unfoldable pub page_work :
        Option (Dict Correlation) → List DetectionRow → Option (Dict Correlation)
    unfolding correlate_page
    page_work none page = none
    page_work (some d) page =
        correlate_page
          (matches_of platform ctx flows (by_flow_id (candidates platform date_parse page) [])) d

    -- The correlations at the end of the loops
    unfoldable pub evaluate : PagedQuery DetectionRow → Option (Option (Dict Correlation))
    unfolding page_work
    evaluate findings = visit findings page_work fuel none (some [])
