-- ===== src/Tests/Runner.antt =====
-- A run of two detectors, the first of which fails, and a registry.
use zero_proof.Base.{◌≤◌, String, ◌≡◌, refl, Option, none, some, [], ◌∷◌, arith}
use zero_proof.Detection.{high}
use zero_proof.Detection.Table.{Row}
use zero_proof.Detection.Service.Rows.{Continues}
use zero_proof.Tests.{memory, empty_memory, stored}
use zero_proof.Tests.Detectors.{ssh_flows, with_honeypot, honeypot_key}
use zero_proof.Detectors.HoneypotHit
use zero_proof.Tests.Detection.{finding_of, with_row, row_before, clock}
use zero_proof.Base.Text.{split, trim, to_lower_case, concat}
use zero_proof.Base.Groups.{group}
use zero_proof.Base.Dict.{set, get, values, DistinctNames, find_named}
use zero_proof.Runner.Registry.{registered, booted, get_detector, list_detectors, register_detector}
use zero_proof.Runner.Guarantees.{run_all_detectors-lands, run_all_detectors-Continues}
use zero_proof.Runner.Registry.Laws.{list_detectors-once}
use zero_proof.Runner.{Detector, DetectorRule, window_of, run_all_detectors}

abbrev Db : Type 0
Db = String → Option Row

abbrev broken : Detector Db
broken = record {
  id = "dns_bypass";
  object = 1;
  default_window_minutes = 15;
  evaluate = λ s ctx. none;
}

abbrev working : Detector Db
working = record {
  id = "internal_scanning";
  object = 2;
  default_window_minutes = 15;
  evaluate = λ s ctx. some (finding_of high ∷ []);
}

abbrev replacement : Detector Db
replacement = record working { object = 3 }

abbrev no_rules : String → Option DetectorRule
no_rules id = none

run_all_detectors-Continues_example :
    (row' : Row) × (memory.find_unique
        (run_all_detectors memory no_rules clock 0 with_row (broken ∷ working ∷ [])).state
        "internal_scanning:a"
      ≡ some row')
    × Continues row_before row'
run_all_detectors-Continues_example =
    run_all_detectors-Continues memory no_rules clock 0 with_row (broken ∷ working ∷ [])
      "internal_scanning:a" row_before refl

-- The detector of honeypots over a few stored flows
abbrev honeypots : Detector Db
honeypots = record {
  id = "honeypot_hit";
  object = 4;
  default_window_minutes = 15;
  evaluate = λ s ctx. some (HoneypotHit.evaluate (stored ssh_flows) with_honeypot ctx);
}

run_all_detectors-lands_example :
    (row : Row) × (memory.find_unique
        (run_all_detectors memory no_rules clock 0 empty_memory (broken ∷ honeypots ∷ [])).state
        honeypot_key
      ≡ some row)
    × (1 ≤ row.occurrences)
unfolding run_all_detectors window_of HoneypotHit.evaluate HoneypotHit.csv_from_env
    HoneypotHit.fingerprint_of HoneypotHit.hit group set get values split trim to_lower_case concat
run_all_detectors-lands_example =
    run_all_detectors-lands memory no_rules clock 0 empty_memory (broken ∷ []) [] honeypots
      (HoneypotHit.evaluate (stored ssh_flows) with_honeypot
        record { begin_time = 0; end_time = 1001 })
      honeypot_key refl (omega arith)

list_detectors-once_example :
    DistinctNames Detector.id (list_detectors (register_detector [] working))
    × ((id : String)
        → find_named Detector.id id (list_detectors (register_detector [] working))
          ≡ get_detector (register_detector [] working) id)
list_detectors-once_example =
    list_detectors-once (register_detector [] working) (registered [] working booted)
