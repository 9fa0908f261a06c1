-- ===== src/Detectors/RepeatingThreat/Reports.antt =====
-- What repeating_threat reports: a source with enough events, with all of them as evidence.
use mathlib.Core.List.{append_assoc, append-nil}
use zero_proof.Base.{
  ℕ, String, ◌≡◌, refl, Option, none, some, List, [], ◌∷◌, ◌++◌, map, ◌∙◌, ap, sym, ◌≤◌, keep,
  if◌then◌else◌, arith, ltb, leb, append, length, ◌<◌, length-map, suc, Bool-cases, inl, inr,
}
use zero_proof.Base.Dict.{find_named, at_entry}
use zero_proof.Base.Groups.{is_key, absorb, find_named-collect-group}
use zero_proof.Detection.{DetectionResult, DetectorContext, Evidence, high, medium}
use zero_proof.Detectors.{Rows, Env}
use zero_proof.Detectors.Threshold.{threshold-pos}
use zero_proof.Detectors.RepeatingThreat.{
  evaluate, put, finding, key_of, selects, ThreatEvent, Bucket, empty_bucket, include_some, filled,
  medium_at, high_at,
}

abbrev columns : (ThreatEvent → Option String) → List String → List ThreatEvent → List String
columns column xs [] = xs
columns column xs (e ∷ es) = columns column (include_some xs (column e)) es

-- A bucket that more events have filled, column by column
abbrev filled_by : Bucket → List ThreatEvent → Bucket
filled_by b es = record {
  ids = b.ids ++ map (λ e. e.id) es;
  categories = columns (λ e. e.category) b.categories es;
  upstream_severities = columns (λ e. e.severity) b.upstream_severities es;
}

absorb-filled_by :
    (b : Bucket) (es : List ThreatEvent) → absorb key_of put (some b) es ≡ some (filled_by b es)
unfolding put
absorb-filled_by b [] = ap (λ ids. some (record b { ids = ids })) (sym (append-nil b.ids))
absorb-filled_by b (e ∷ es) =
    absorb-filled_by (filled b e) es
    ∙ ap (λ ids. some (record (filled_by (filled b e) es) { ids = ids }))
        (append_assoc b.ids (e.id ∷ []) (map (λ x. x.id) es))

-- What the detector owes to a source with these events: nothing below the lower threshold, else a
-- finding about the source with every event as evidence and the severity of their number.
abbrev pub IsOwed : Env → String → List ThreatEvent → Option DetectionResult → Type 0
IsOwed env ip es none = length es < medium_at env
IsOwed env ip es (some r) =
    (medium_at env ≤ length es)
    × (r.severity ≡ (if leb (high_at env) (length es) then high else medium))
    × (r.evidence ≡ map (λ e. Evidence.threat e.id) es)
    × (r.affected_resource ≡ some ip)

map-map :
    (es : List ThreatEvent)
    → map Evidence.threat (map (λ e. e.id) es) ≡ map (λ e. Evidence.threat e.id) es
map-map [] = refl
map-map (e ∷ es) = ap (λ xs. Evidence.threat e.id ∷ xs) (map-map es)

finding-IsOwed :
    (env : Env) (ip : String) (es : List ThreatEvent) (b : Bucket)
    → length b.ids ≡ length es
    → map Evidence.threat b.ids ≡ map (λ e. Evidence.threat e.id) es
    → IsOwed env ip es (finding (medium_at env) (high_at env) ip b)
unfolding finding
finding-IsOwed env ip es b n ev = elim (Bool-cases (ltb (length b.ids) (medium_at env))) [
  | inl few ↦ rw few (ground arith)
  | inr many ↦ rw many (ground arith, rw n refl, ev, refl)
]

absorb-IsOwed :
    (env : Env) (ip : String) (es : List ThreatEvent)
    → IsOwed env ip es
        (at_entry (finding (medium_at env) (high_at env)) ip (absorb key_of put none es))
unfolding put
absorb-IsOwed env ip [] = threshold-pos env "REPEATING_THRESHOLD_MED" 5 (omega arith)
absorb-IsOwed env ip (e ∷ es) = rw (absorb-filled_by (filled empty_bucket e) es) (
    finding-IsOwed env ip (e ∷ es) (filled_by (filled empty_bucket e) es) (ap suc (length-map _ es))
      (map-map (e ∷ es)))

finding-fingerprint :
    (m h : ℕ) (k : String) (b : Bucket) (r : DetectionResult)
    → finding m h k b ≡ some r
    → r.fingerprint ≡ append "repeating_threat:" k
unfolding finding
finding-fingerprint m h k b r e = ground arith

-- Every source gets exactly what its selected events call for.
pub repeating_threat-IsOwed :
    (rows : Rows ThreatEvent) (env : Env) (ctx : DetectorContext) (ip : String)
    → IsOwed env ip
        (keep (λ e. is_key ip (key_of e)) (rows.find_many (selects ctx)))
        (find_named (λ r. r.fingerprint) (append "repeating_threat:" ip) (evaluate rows env ctx))
unfolding evaluate
repeating_threat-IsOwed rows env ctx ip =
    let found = rows.find_many (selects ctx) in
    rw
      (find_named-collect-group key_of put (finding (medium_at env) (high_at env))
        (λ r. r.fingerprint) "repeating_threat:" (finding-fingerprint (medium_at env) (high_at env))
        found ip)
      (absorb-IsOwed env ip (keep (λ e. is_key ip (key_of e)) found))
