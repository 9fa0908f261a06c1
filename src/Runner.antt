-- ===== src/Runner.antt =====
-- detectors/runner.ts: every registered detector is evaluated over its window and its findings are
-- persisted; one that fails is counted and the run goes on. The state `S` is the whole database, from
-- which detectors read too. Evaluation fails with `none`; the writes of the `Table` interface do not
-- fail. `clock i` is the i-th reading of the clock.
pub mod Registry
pub mod Guarantees
use zero_proof.Base.{ℕ, ◌+◌, ◌-◌, ◌*◌, String, Option, none, some, List, [], ◌∷◌, length}
use zero_proof.Detection.{DetectionResult, DetectorContext}
use zero_proof.Detection.Table.{Table}
use zero_proof.Detection.Service.{PersistContext, PersistOutcome, persist_detection_results}

-- `object` is the identity of the detector's object.
pub record Detector (S : Type 0) : Type 0 where
  pub id : String
  pub object : ℕ
  pub default_window_minutes : ℕ
  pub evaluate : S → DetectorContext → Option (List DetectionResult)

-- What the runner reads of a `DetectorRule`
pub record DetectorRule : Type 0 where
  pub remediation : Option String
  pub references : Option (List String)
  pub retention_days : Option ℕ

pub record RunSummary : Type 0 where
  pub evaluated : ℕ
  pub inserted : ℕ
  pub refreshed : ℕ
  pub failed : ℕ

unfoldable pub window_of : {S : Type 0} → Detector S → ℕ → DetectorContext
window_of d end = record { begin_time = end - d.default_window_minutes * 60 * 1000; end_time = end }

-- The second argument of `persistDetectionResults`, with `rule?.…` from `getDetectorRule`
pub persist_context : String → Option DetectorRule → PersistContext
persist_context id none = record {
  detector_id = id;
  remediation = none;
  references = none;
  retention_days = none;
}
persist_context id (some rule) = record {
  detector_id = id;
  remediation = rule.remediation;
  references = rule.references;
  retention_days = rule.retention_days;
}

-- The state after one detector, its counts, and the next reading of the clock
pub record RanDetector (S : Type 0) : Type 0 where
  pub state : S
  pub counts : PersistOutcome
  pub next : ℕ

module _ {S : Type 0} (t : Table S) (get_detector_rule : String → Option DetectorRule)
    (clock : ℕ → ℕ) where
  persist_findings : ℕ → S → Detector S → List DetectionResult → RanDetector S
  persist_findings i s d [] = record {
    state = s;
    counts = record { inserted = 0; refreshed = 0 };
    next = i + 1;
  }
  persist_findings i s d (r ∷ rs) =
      let ctx = persist_context d.id (get_detector_rule d.id) in
      let done = persist_detection_results t ctx clock (i + 1) s (r ∷ rs) in
      record { state = done.0; counts = done.1; next = i + 1 + 2 * length (r ∷ rs) }

  findings_persisted : ℕ → S → Detector S → Option (List DetectionResult) → Option (RanDetector S)
  findings_persisted i s d none = none
  findings_persisted i s d (some rs) = some (persist_findings i s d rs)

  -- `runDetector`
  pub run_detector : ℕ → S → Detector S → Option (RanDetector S)
  unfolding findings_persisted
  run_detector i s d = findings_persisted i s d (d.evaluate s (window_of d (clock i)))

  pub record Progress : Type 0 where
    pub state : S
    pub summary : RunSummary
    pub next : ℕ

  -- The `try` and the `catch` of one iteration
  counted : Progress → Option (RanDetector S) → Progress
  counted p none = record p {
    summary = record p.summary { failed = p.summary.failed + 1 };
    next = p.next + 1;
  }
  counted p (some ran) = record {
    state = ran.state;
    summary = record p.summary {
      evaluated = p.summary.evaluated + 1;
      inserted = p.summary.inserted + ran.counts.inserted;
      refreshed = p.summary.refreshed + ran.counts.refreshed;
    };
    next = ran.next;
  }

  pub run_one : Progress → Detector S → Progress
  unfolding run_detector counted
  run_one p d = counted p (run_detector p.next p.state d)

  pub run_from : Progress → List (Detector S) → Progress
  unfolding run_one
  run_from p [] = p
  run_from p (d ∷ ds) = run_from (run_one p d) ds

  abbrev pub started : ℕ → S → Progress
  started i s = record {
    state = s;
    summary = record { evaluated = 0; inserted = 0; refreshed = 0; failed = 0 };
    next = i;
  }

  -- `runAllDetectors` over the listed detectors
  unfoldable pub run_all_detectors : ℕ → S → List (Detector S) → Progress
  unfolding run_from persist_findings
  run_all_detectors i s ds = run_from (started i s) ds
