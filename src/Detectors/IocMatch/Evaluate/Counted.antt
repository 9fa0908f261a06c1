-- ===== src/Detectors/IocMatch/Evaluate/Counted.antt =====
-- What holds of every finding that a run of ioc_match ends with.
use zero_proof.Base.{ℕ, ◌<◌, String, ◌≡◌, Option, none, some, List, [], ◌∷◌, length, All}
use zero_proof.Detection.{Evidence}
use zero_proof.Detectors.{Rows}
use zero_proof.Detectors.Paging.{PagedQuery, fold_rows}
use zero_proof.Detectors.ThreatIntel.{Hit}
use zero_proof.Detectors.Identity.{Platform, DetectorIdentity}
use zero_proof.Detectors.IocMatch.{Match}
use zero_proof.Detectors.IocMatch.Merging.{IsCountedEntry, merge_finding-IsCounted}
use zero_proof.Detectors.IocMatch.Evaluate.{
  FlowRow, DnsRow, Found, merge_known, merge_hits, at_hits, evaluate,
}
use zero_proof.Detectors.IocMatch.Evaluate.Visits.{
  plain_at, plain_step, plain_flow, plain_query, evaluate-visits,
}

module _ (platform : Platform) (evidence_key : Evidence → String) (store : Rows Hit) where
  -- Every finding so far is counted; after an error there is none.
  abbrev pub AllCounted : Found → Type 0
  AllCounted none = Unit
  AllCounted (some found) = All (IsCountedEntry evidence_key platform) found

  merge_known-AllCounted :
      (i : Option DetectorIdentity) (match_of : DetectorIdentity → Match) (found : Found)
      → AllCounted found
      → AllCounted (merge_known platform evidence_key store i match_of found)
  unfolding merge_known
  merge_known-AllCounted none match_of found h = tt
  merge_known-AllCounted (some i) match_of none h = tt
  merge_known-AllCounted (some i) match_of (some found) h =
      merge_finding-IsCounted evidence_key platform (match_of i) found h

  merge_hits-AllCounted :
      (hits : List Hit) (i : Option DetectorIdentity) (match_of : DetectorIdentity → Match)
      (found : Found)
      → AllCounted found
      → AllCounted (merge_hits platform evidence_key store hits i match_of found)
  unfolding merge_hits
  merge_hits-AllCounted [] i match_of found h = h
  merge_hits-AllCounted (hit ∷ hits) i match_of found h = merge_known-AllCounted i match_of found h

  module _ {A : Type 0} (value_of : A → Option (String × String)) (lookup : String → List Hit)
      (identity_of : A → Option DetectorIdentity)
      (match_of : A → String → List Hit → DetectorIdentity → Match) where
    plain_at-AllCounted :
        (a : A) (o : Option (String × String)) (found : Found)
        → AllCounted found
        → AllCounted
            (plain_at platform evidence_key store value_of lookup identity_of match_of a o found)
    unfolding plain_at at_hits
    plain_at-AllCounted a none found h = h
    plain_at-AllCounted a (some (destination, value)) found h =
        merge_hits-AllCounted (lookup value) (identity_of a) (match_of a destination (lookup value))
          found h

    rows-AllCounted :
        (rows : List A) (found : Found)
        → AllCounted found
        → AllCounted (
            fold_rows
              (plain_step platform evidence_key store value_of lookup identity_of match_of)
              found
              rows)
    unfolding plain_step
    rows-AllCounted [] found h = h
    rows-AllCounted (a ∷ rows) found h =
        rows-AllCounted rows _ (plain_at-AllCounted a (value_of a) found h)

  -- With more fuel than rows the run ends, and each of its findings has no item of evidence twice,
  -- and as its number of events the number of flows and DNS queries among its evidence.
  pub evaluate-AllCounted :
      (fuel : ℕ) (flows : PagedQuery FlowRow) (queries : PagedQuery DnsRow)
      → length flows.rows < fuel
      → length queries.rows < fuel
      → (found : Found) × (evaluate platform evidence_key store fuel flows queries ≡ some found)
        × AllCounted found
  unfolding plain_flow plain_query
  evaluate-AllCounted fuel flows queries hf hq = (
    _,
    evaluate-visits platform evidence_key store fuel flows queries hf hq,
    rows-AllCounted _ _ _ _ queries.rows _ (rows-AllCounted _ _ _ _ flows.rows (some []) tt),
  )
