-- ===== src/Detectors/ValidatedCompromise/Supported.antt =====
-- What a correlation stands on, and that each threat keeps it.
use zero_proof.Detectors.Paging.Kept.{fold_rows-keeps}
use zero_proof.Detectors.Paging.{fold_rows, PagedQuery}
use zero_proof.Detectors.ValidatedCompromise.Candidates.{Candidate}
use zero_proof.Base.{
  ℕ, ◌≤◌, String, ◌≡◌, refl, inl, inr, true, ◌&&◌, Option, none, some, List, [], arith, str_eq,
  eq_refl, Bool-cases, Option-cases, or_else, All, has, include, any-include,
}
use zero_proof.Base.Dict.{Dict, get, get-All, set-All}
use mathlib.Core.List.{Mem}
use zero_proof.Detectors.{Rows}
use zero_proof.Detection.{Evidence, DetectorContext, in_window}
use zero_proof.Detectors.Identity.{Platform, normalize_ip, detector_fingerprint}
use zero_proof.Detectors.ValidatedCompromise.{
  FlowRow, FlowMatch, ThreatRow, Correlation, present, Matches,
}
use zero_proof.Detectors.ValidatedCompromise.Matching.{source_key}
use zero_proof.Detectors.ValidatedCompromise.Correlating.{
  is_ids_event, corroborated, new_correlation, correlate_match, threat_at, threat_step,
}
use zero_proof.Detectors.ValidatedCompromise.Correlated.{IsFlowMatch, IsGood, at_key}

has-include : (xs : List String) (x : String) → has (include xs x) x ≡ true
has-include xs x = ground (arith, any-include (λ y. str_eq y x) xs x, eq_refl x)

module _ (platform : Platform) (ctx : DetectorContext) (flows : Rows FlowRow)
    (threats : List String → PagedQuery ThreatRow) (IsStored : Candidate → Type 0) where
  -- A stored event of the source in the window that is an IDS event
  abbrev pub IsThreat : String → ThreatRow → Type 0
  IsThreat key t =
      (scope : String) × (ip : String) × (key ≡ source_key platform scope ip)
      × ((scopes : List String) × Mem t (PagedQuery.rows (threats scopes)))
      × (in_window ctx t.occurred_at ≡ true)
      × (is_ids_event t ≡ true)
      × (present t.scope_id ≡ some scope)
      × (normalize_ip platform t.src_ip ≡ some ip)

  -- A correlation's times are in the window.
  abbrev pub IsInWindow : Correlation → Type 0
  IsInWindow c =
      (ctx.begin_time ≤ c.first_observed_at)
      × (c.first_observed_at ≤ c.last_observed_at)
      × (c.last_observed_at ≤ ctx.end_time)

  -- The correlation under a fingerprint stands on a match of a stored finding and on a stored IDS
  -- event that have one source and one connection, and names both.
  abbrev pub IsSupported : String × Correlation → Type 0
  IsSupported e =
      IsInWindow e.1
      × ((m : FlowMatch) × (t : ThreatRow) × (key : String) × IsFlowMatch platform ctx flows
            IsStored key m
          × IsThreat key t
          × (str_eq m.flow.connection_id t.connection_id ≡ true)
          × (e.0 ≡ detector_fingerprint platform "validated_compromise" m.identity none)
          × (has e.1.ioc_finding_ids m.candidate.id ≡ true)
          × (has e.1.threat_ids t.id ≡ true))

  module _ (date_parse : String → Option ℕ) (evidence_key : Evidence → String) where
    starting-IsInWindow :
        (fingerprint : String) (m : FlowMatch) (t : ThreatRow) (ip : String)
        → in_window ctx m.flow.occurred_at ≡ true
        → in_window ctx t.occurred_at ≡ true
        → IsInWindow (new_correlation platform date_parse evidence_key ctx fingerprint m t ip)
    unfolding new_correlation
    starting-IsInWindow fingerprint m t ip flow_in threat_in =
        (ground arith, ground arith, ground arith)

    corroborated-IsInWindow :
        (m : FlowMatch) (t : ThreatRow) (ip : String) (c : Correlation)
        → in_window ctx m.flow.occurred_at ≡ true
        → in_window ctx t.occurred_at ≡ true
        → IsInWindow c
        → IsInWindow (corroborated platform date_parse evidence_key ctx m t ip c)
    unfolding corroborated
    corroborated-IsInWindow m t ip c flow_in threat_in h =
        (ground (arith, h.0), ground (arith, h.1), ground (arith, h.2))

    prior-IsInWindow :
        (d : Dict Correlation) (fingerprint : String) (c : Correlation)
        → All IsSupported d
        → IsInWindow c
        → IsInWindow (or_else (get d fingerprint) c)
    prior-IsInWindow d fingerprint c h new = elim (Option-cases (get d fingerprint)) [
      | inl missing ↦ rw missing new
      | inr (prior, found) ↦ rw found (get-All IsSupported d fingerprint prior h found).0
    ]

    correlate_match-IsSupported :
        (key : String) (t : ThreatRow) (ip : String) (d : Dict Correlation) (m : FlowMatch)
        → IsThreat key t
        → All IsSupported d
        → IsFlowMatch platform ctx flows IsStored key m
        → All IsSupported (correlate_match platform date_parse evidence_key ctx t ip d m)
    unfolding correlate_match corroborated
    correlate_match-IsSupported key t ip d m threat h match =
        elim (Bool-cases (str_eq m.flow.connection_id t.connection_id)) [
          | inl same ↦
              let fingerprint =
                detector_fingerprint platform "validated_compromise" m.identity none in
              let start = new_correlation platform date_parse evidence_key ctx fingerprint m t ip in
              let prior = or_else (get d fingerprint) start in
              let inside = corroborated-IsInWindow m t ip prior match.6 threat.4 (
                prior-IsInWindow d fingerprint start h
                  (starting-IsInWindow fingerprint m t ip match.6 threat.4)) in
              rw same (
                set-All IsSupported d fingerprint
                  (corroborated platform date_parse evidence_key ctx m t ip prior) h
                  (
                    inside,
                    (
                      m,
                      t,
                      key,
                      match,
                      threat,
                      same,
                      refl,
                      has-include prior.ioc_finding_ids m.candidate.id,
                      has-include prior.threat_ids t.id,
                    ),
                  ))
          | inr other ↦ rw other h
        ]

    -- The matches of a source, each with the threat
    matched-IsSupported :
        (key : String) (t : ThreatRow) (ip : String) (ms : Matches) (d : Dict Correlation)
        → IsThreat key t
        → IsGood platform ctx flows IsStored ms
        → All IsSupported d
        → All IsSupported (
            fold_rows
              (correlate_match platform date_parse evidence_key ctx t ip)
              d
              (or_else (get ms.by_source key) []))
    matched-IsSupported key t ip ms d threat good h =
        fold_rows-keeps (All IsSupported) (IsFlowMatch platform ctx flows IsStored key)
          (correlate_match platform date_parse evidence_key ctx t ip)
          (λ e m k match. correlate_match-IsSupported key t ip e m threat k match)
          (or_else (get ms.by_source key) []) d h (at_key platform ctx flows IsStored key ms good)

    threat_at-IsSupported :
        (ms : Matches) (t : ThreatRow) (d : Dict Correlation) (o p : Option String)
        → present t.scope_id ≡ o
        → normalize_ip platform t.src_ip ≡ p
        → ((scopes : List String) × Mem t (PagedQuery.rows (threats scopes)))
        → IsGood platform ctx flows IsStored ms
        → All IsSupported d
        → All IsSupported (threat_at platform date_parse evidence_key ctx ms t d o p)
    unfolding threat_at
    threat_at-IsSupported ms t d none p scoped addressed from good h = h
    threat_at-IsSupported ms t d (some scope) none scoped addressed from good h = h
    threat_at-IsSupported ms t d (some scope) (some ip) scoped addressed from good h =
        elim (Bool-cases (in_window ctx t.occurred_at && is_ids_event t)) [
          | inl told ↦
              let key = source_key platform scope ip in
              let window : in_window ctx t.occurred_at ≡ true = ground arith in
              let ids : is_ids_event t ≡ true = ground arith in
              rw told (
                matched-IsSupported key t ip ms d
                  (scope, ip, refl, from, window, ids, scoped, addressed) good h)
          | inr skipped ↦ rw skipped h
        ]

    pub threat_step-IsSupported :
        (ms : Matches) (d : Dict Correlation) (t : ThreatRow)
        → ((scopes : List String) × Mem t (PagedQuery.rows (threats scopes)))
        → IsGood platform ctx flows IsStored ms
        → All IsSupported d
        → All IsSupported (threat_step platform date_parse evidence_key ctx ms d t)
    unfolding threat_step
    threat_step-IsSupported ms d t from good h =
        threat_at-IsSupported ms t d (present t.scope_id) (normalize_ip platform t.src_ip) refl refl
          from good h
