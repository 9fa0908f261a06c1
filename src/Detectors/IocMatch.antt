-- ===== src/Detectors/IocMatch.antt =====
-- detectors/iocMatch.ts: flows and DNS queries that match a threat indicator. What one match does to
-- the findings.
pub mod Merging
pub mod Evaluate
use zero_proof.Base.{
  ℕ, zero, suc, String, Bool, true, false, not, ◌&&◌, ◌||◌, Option, none, some, List, [], ◌∷◌, ◌++◌,
  str_eq, if◌then◌else◌, or_else, any, include, has,
}
use Prim.Native.String.{compare}
use Prim.Native.Nat.{Ordering}
use zero_proof.Base.Dict.{Dict, get, set}
use zero_proof.Base.Groups.{group}
use zero_proof.Base.Text.{
  to_lower_case, to_upper_case, trim, without_final_dot, split, join, concat, is_empty,
}
use zero_proof.Detection.{Severity, Evidence, critical, high}
use zero_proof.Detectors.{Rows}
use zero_proof.Detectors.ThreatIntel.{Hit, normalize_domain}
use zero_proof.Detectors.Identity.{Platform, DetectorIdentity, normalize_ip, detector_fingerprint}

pub data IndicatorKind : Type 0 where
  ip domain : IndicatorKind

abbrev pub kind_text : IndicatorKind → String
kind_text ip = "ip"
kind_text domain = "domain"

pub record Match : Type 0 where
  pub identity : DetectorIdentity
  pub actor : String
  pub destination : String
  pub kind : IndicatorKind
  pub hits : List Hit
  pub evidence : Evidence

-- `FindingAccumulator` with its finding and the metadata of the finding
pub record Accumulator : Type 0 where
  pub fingerprint : String
  pub severity : Severity
  pub actor : String
  pub identity : DetectorIdentity
  pub matched_value : String
  pub kind : IndicatorKind
  pub evidence : List Evidence
  pub evidence_keys : List String
  pub feeds : List String
  pub categories : List String
  pub destinations : List String
  pub first_observed_at : Option String
  pub last_observed_at : Option String
  pub source_event_count : ℕ

map_text : (String → String) → Option String → Option String
map_text f none = none
map_text f (some s) = some (f s)

text_is : Option String → String → Bool
text_is none t = false
text_is (some s) t = str_eq s t

is_critical : Hit → Bool
unfolding text_is map_text
is_critical h =
    text_is (map_text to_upper_case h.severity) "CRITICAL"
    || has ("malware-c2" ∷ "cryptominer" ∷ [])
        (or_else (map_text (λ s. to_lower_case (trim s)) h.category) "")

pub severity_for : List Hit → Severity
unfolding is_critical
severity_for hits = if any is_critical hits then critical else high

-- `a > b` on texts
text_greater : String → String → Bool
text_greater a b = elim (compare a b) [ Ordering.gt ↦ true | _ ↦ false ]

feed_evidence : String → List Hit → List Evidence
feed_evidence value [] = []
feed_evidence value (h ∷ hs) = Evidence.ioc value h.feed ∷ feed_evidence value hs

pub is_source : Evidence → Bool
is_source (Evidence.flow id) = true
is_source (Evidence.dns_query id) = true
is_source _ = false

-- `for (const hit of hits)`: the feeds and the categories
add_hits : Accumulator → List Hit → Accumulator
add_hits a [] = a
add_hits a (h ∷ hs) =
    let category = to_lower_case (trim (or_else h.category "")) in
    add_hits
      (record a {
        feeds = include a.feeds h.feed;
        categories = if is_empty category then a.categories else include a.categories category;
      })
      hs

-- The times of the events, and the identity of the newest
is_newest : Accumulator → DetectorIdentity → Option String → Bool
is_newest a i none = false
is_newest a i (some t) = elim a.last_observed_at [
  | none ↦ true
  | some last ↦
      text_greater t last || (str_eq t last && text_greater i.event_id a.identity.event_id)
]

earlier : Option String → String → String
earlier none t = t
earlier (some first) t = if text_greater first t then t else first

later : Option String → String → String
later none t = t
later (some last) t = if text_greater t last then t else last

observe : Accumulator → Option String → Accumulator
unfolding earlier later
observe a none = a
observe a (some t) = record a {
  first_observed_at = some (earlier a.first_observed_at t);
  last_observed_at = some (later a.last_observed_at t);
}

module _ (platform : Platform) (evidence_key : Evidence → String) where
  indicator_text : IndicatorKind → String → String
  indicator_text ip value = or_else (normalize_ip platform (some value)) ""
  indicator_text domain value = normalize_domain value

  -- The indicator of a hit, `none` where the hit is left out
  indicator_of : IndicatorKind → Hit → Option String
  unfolding indicator_text
  indicator_of kind h =
      let indicator = indicator_text kind h.value in
      if is_empty indicator || not (str_eq h.kind (kind_text kind)) then none else some indicator

  indicators : Match → Dict (List Hit)
  unfolding indicator_of
  indicators m = group (indicator_of m.kind) (λ o h. or_else o [] ++ h ∷ []) [] m.hits

  add_evidence : Accumulator → List Evidence → Accumulator
  unfolding is_source
  add_evidence a [] = a
  add_evidence a (e ∷ es) =
      if has a.evidence_keys (evidence_key e)
      then add_evidence a es
      else add_evidence
          (record a {
            evidence_keys = a.evidence_keys ++ evidence_key e ∷ [];
            evidence = a.evidence ++ e ∷ [];
            source_event_count =
                if is_source e then suc a.source_event_count else a.source_event_count;
          })
          es

  fresh : Match → String → String → Accumulator
  fresh m fingerprint value = record {
    fingerprint = fingerprint;
    severity = high;
    actor = m.actor;
    identity = m.identity;
    matched_value = value;
    kind = m.kind;
    evidence = [];
    evidence_keys = [];
    feeds = [];
    categories = [];
    destinations = [];
    first_observed_at = none;
    last_observed_at = none;
    source_event_count = zero;
  }

  is_already_critical : Option Accumulator → Bool
  is_already_critical none = false
  is_already_critical (some a) = elim a.severity [ critical ↦ true | _ ↦ false ]

  -- One indicator of a match: the accumulator under its fingerprint
  merged : Match → String → List Hit → String → Option Accumulator → Accumulator
  unfolding feed_evidence add_hits is_newest observe add_evidence fresh is_already_critical
  merged m value hits fingerprint prior =
      let old = or_else prior (fresh m fingerprint value) in
      let newest = is_newest old m.identity m.identity.observed_at in
      let seen = observe (add_hits old hits) m.identity.observed_at in
      let told = add_evidence seen (m.evidence ∷ feed_evidence value hits) in
      record told {
        destinations = include told.destinations m.destination;
        identity = if newest then m.identity else old.identity;
        actor = if newest then m.actor else old.actor;
        severity = if is_already_critical prior then critical else severity_for hits;
      }

  merge_indicators : Match → Dict (List Hit) → Dict Accumulator → Dict Accumulator
  unfolding merged
  merge_indicators m [] found = found
  merge_indicators m ((value, hits) ∷ more) found =
      let fingerprint =
        detector_fingerprint platform "ioc_match" m.identity
          (some (concat (kind_text m.kind ∷ ":" ∷ value ∷ []))) in
      merge_indicators m more
        (set found fingerprint (merged m value hits fingerprint (get found fingerprint)))

  pub merge_finding : Match → Dict Accumulator → Dict Accumulator
  unfolding indicators merge_indicators
  merge_finding m found = merge_indicators m (indicators m) found
