-- ===== src/Detectors/ValidatedCompromise/Correlating.antt =====
-- detectors/validatedCompromise.ts: what a threat makes of the matches of its source.
use zero_proof.Base.{
  ℕ, String, Bool, true, false, ◌&&◌, ◌||◌, Option, none, some, List, [], ◌∷◌, ◌++◌, str_eq, ltb,
  if◌then◌else◌, or_else, include,
}
use zero_proof.Base.Dict.{Dict, get, set}
use zero_proof.Detection.{Evidence, DetectorContext, in_window}
use zero_proof.Detectors.Paging.{fold_rows}
use zero_proof.Detectors.Identity.{Platform, DetectorIdentity, normalize_ip, detector_fingerprint}
use zero_proof.Detectors.Identity.Parsing.{parse_detector_identity, identity_value}
use zero_proof.Detectors.ValidatedCompromise.{
  ThreatRow, FlowMatch, Correlation, Matches, present, text_is,
}
use zero_proof.Detectors.ValidatedCompromise.Matching.{source_key}
use Prim.Native.Nat.{min, max}

unfoldable pub is_ids_event : ThreatRow → Bool
is_ids_event t =
    text_is t.threat_type "THREAT_DETECTION_AND_PREVENTION"
    || text_is t.subcategory "SECURITY_INTRUSION_PREVENTION"

module _ (platform : Platform) (date_parse : String → Option ℕ) (evidence_key : Evidence → String)
    (ctx : DetectorContext) where
  -- A match and a threat, from here on
  unfoldable pub new_correlation : String → FlowMatch → ThreatRow → String → Correlation
  new_correlation fingerprint m t ip = record {
    fingerprint = fingerprint;
    actor = or_else (present m.flow.src_client_name) (or_else m.identity.src_mac ip);
    src_mac = m.identity.src_mac;
    identity = m.identity;
    evidence = [];
    ioc_finding_ids = [];
    threat_ids = [];
    threat_categories = [];
    source_ips = [];
    first_observed_at = min m.flow.occurred_at t.occurred_at;
    last_observed_at = max m.flow.occurred_at t.occurred_at;
  }

  unfoldable pub put_evidence : Dict Evidence → List Evidence → Dict Evidence
  put_evidence d [] = d
  put_evidence d (e ∷ es) = put_evidence (set d (evidence_key e) e) es

  -- `Date.parse(latest.observedAt)`; a date that cannot be parsed is later than no time.
  unfoldable pub is_later : ℕ → Option ℕ → Bool
  is_later time none = false
  is_later time (some last) = ltb last time

  unfoldable pub is_newer_at : ℕ → Option String → Bool
  unfolding is_later
  is_newer_at time none = true
  is_newer_at time (some observed) = is_later time (date_parse observed)

  unfoldable pub is_newer : ℕ → Option DetectorIdentity → Bool
  unfolding is_newer_at
  is_newer time none = true
  is_newer time (some latest) = is_newer_at time (present latest.observed_at)

  unfoldable pub with_category : List String → Option String → List String
  with_category cs none = cs
  with_category cs (some c) = include cs c

  unfoldable pub corroborated : FlowMatch → ThreatRow → String → Correlation → Correlation
  unfolding is_newer with_category
  corroborated m t ip c = record {
    fingerprint = c.fingerprint;
    actor = c.actor;
    src_mac = c.src_mac;
    identity =
        if is_newer m.flow.occurred_at
          (parse_detector_identity platform date_parse (identity_value c.identity))
        then m.identity
        else c.identity;
    evidence =
        put_evidence c.evidence
          (Evidence.flow m.flow.id ∷ (m.candidate.indicators ++ Evidence.threat t.id ∷ []));
    ioc_finding_ids = include c.ioc_finding_ids m.candidate.id;
    threat_ids = include c.threat_ids t.id;
    threat_categories = with_category c.threat_categories (present t.category);
    source_ips = include c.source_ips ip;
    first_observed_at = min c.first_observed_at (min m.flow.occurred_at t.occurred_at);
    last_observed_at = max c.last_observed_at (max m.flow.occurred_at t.occurred_at);
  }

  unfoldable pub correlate_match :
      ThreatRow → String → Dict Correlation → FlowMatch → Dict Correlation
  unfolding corroborated new_correlation
  correlate_match t ip d m =
      let fingerprint = detector_fingerprint platform "validated_compromise" m.identity none in
      if str_eq m.flow.connection_id t.connection_id
      then set d fingerprint
          (corroborated m t ip (or_else (get d fingerprint) (new_correlation fingerprint m t ip)))
      else d

  unfoldable pub threat_at :
      Matches → ThreatRow → Dict Correlation → Option String → Option String → Dict Correlation
  unfolding correlate_match
  threat_at ms t d (some scope) (some ip) =
      if in_window ctx t.occurred_at && is_ids_event t
      then fold_rows (correlate_match t ip) d
          (or_else (get ms.by_source (source_key platform scope ip)) [])
      else d
  threat_at ms t d _ _ = d

  unfoldable pub threat_step : Matches → Dict Correlation → ThreatRow → Dict Correlation
  unfolding threat_at
  threat_step ms d t = threat_at ms t d (present t.scope_id) (normalize_ip platform t.src_ip)
