-- ===== src/Tests/Detection.antt =====
-- Findings persisted twice, and a sweep.
use zero_proof.Detection.Analytics.{AffectedRow, top_affected}
use zero_proof.Detection.Analytics.Top.{IsTold, top_affected-IsTold}
use zero_proof.Base.{
  ℕ, ◌+◌, ◌≤◌, String, ◌≡◌, ◌↔◌, Option, none, some, List, [], ◌∷◌, arith, str_eq, if◌then◌else◌,
  length, All,
}
use zero_proof.Detection.{DetectionResult, Severity, high, low}
use zero_proof.Detection.Table.{Row}
use zero_proof.Detection.Service.{
  PersistContext, persist_detection_results, cleanup_expired_detections, new_row,
}
use zero_proof.Detection.Service.Rows.{occurrences_of, severity_of}
use zero_proof.Detection.Service.Guarantees.{
  persist-occurrences, persist-worst, sweep_iff, persisted-survives, IsKept,
}
use zero_proof.Tests.{memory, empty_memory}

abbrev pub finding_of : Severity → DetectionResult
finding_of v = record {
  fingerprint = "internal_scanning:a";
  severity = v;
  title = "a contacted 30 distinct internal IPs";
  description = "";
  remediation = none;
  affected_resource = some "a";
  src_mac = none;
  confidence = none;
  evidence = [];
  metadata = none;
}

abbrev context : PersistContext
context = record {
  detector_id = "internal_scanning";
  remediation = none;
  references = none;
  retention_days = none;
}

abbrev pub clock : ℕ → ℕ
clock i = 1000 + i

abbrev findings : List DetectionResult
findings = finding_of high ∷ finding_of low ∷ []

abbrev pub row_before : Row
row_before = new_row context 10 11 (finding_of low)

abbrev pub with_row : String → Option Row
with_row k = if str_eq "internal_scanning:a" k then some row_before else none

persist-occurrences_example :
    occurrences_of (
      memory.find_unique
        (persist_detection_results memory context clock 0 empty_memory findings).0
        "internal_scanning:a")
    ≡ 0 + 2
persist-occurrences_example =
    persist-occurrences memory context clock 0 empty_memory findings "internal_scanning:a"

persist-worst_example :
    severity_of (
      memory.find_unique
        (persist_detection_results memory context clock 0 empty_memory findings).0
        "internal_scanning:a")
    ≡ some high
persist-worst_example =
    persist-worst memory context clock 0 empty_memory findings "internal_scanning:a"

sweep_iff_example :
    (memory.find_unique (cleanup_expired_detections memory 100 100 with_row).0 "internal_scanning:a"
      ≡ some row_before)
    ↔ ((memory.find_unique with_row "internal_scanning:a" ≡ some row_before)
        × IsKept 100 100 row_before)
sweep_iff_example = sweep_iff memory 100 100 with_row "internal_scanning:a" row_before

persisted-survives_example :
    (row : Row) × (memory.find_unique
        (cleanup_expired_detections memory 5000 5000
          (persist_detection_results memory context clock 0 empty_memory
            (finding_of high ∷ [])).0).0
        "internal_scanning:a"
      ≡ some row)
persisted-survives_example =
    persisted-survives memory context clock 0 empty_memory (finding_of high) 5000 5000 (omega arith)
      (omega arith)

abbrev affected_rows : List AffectedRow
affected_rows =
    record { affected_resource = some "camera"; severity = Severity.low }
    ∷ record { affected_resource = none; severity = Severity.critical }
    ∷ record { affected_resource = some "camera"; severity = Severity.high }
    ∷ []

top_affected-IsTold_example :
    (length (top_affected affected_rows) ≤ 10)
    × All (IsTold affected_rows) (top_affected affected_rows)
top_affected-IsTold_example = top_affected-IsTold affected_rows
