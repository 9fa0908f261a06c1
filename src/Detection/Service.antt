-- ===== src/Detection/Service.antt =====
-- services/detection/detectionService.ts: findings become rows, one for each fingerprint, and old
-- rows are swept away. `clock i` is the i-th reading of the clock; an iteration of the loop takes
-- two, one for the expiry and one for the write.
pub mod Rows
pub mod Guarantees
use zero_proof.Base.{
  ℕ, ◌+◌, ◌-◌, ◌*◌, String, Bool, true, false, ◌&&◌, ◌||◌, Option, none, some, List, [], ◌∷◌, ltb,
  or_else, or_option,
}
use zero_proof.Detection.{DetectionResult, max_severity}
use zero_proof.Detection.Table.{Row, Table, opened, resolved, dismissed, Status}

pub record PersistContext : Type 0 where
  pub detector_id : String
  pub remediation : Option String
  pub references : Option (List String)
  pub retention_days : Option ℕ

pub record PersistOutcome : Type 0 where
  pub inserted : ℕ
  pub refreshed : ℕ

abbrev pub default_retention_days : ℕ
default_retention_days = 14

abbrev pub day : ℕ
day = 86400000

abbrev pub retention : PersistContext → ℕ
retention ctx = or_else ctx.retention_days default_retention_days * day

-- The data of `prisma.detection.update`: what is `undefined` there keeps its value.
pub refreshed_row : PersistContext → (now written : ℕ) → DetectionResult → Row → Row
refreshed_row ctx now written r row = record row {
  severity = max_severity row.severity r.severity;
  title = r.title;
  description = r.description;
  remediation = or_option r.remediation ctx.remediation;
  references = or_option ctx.references row.references;
  affected_resource = r.affected_resource;
  src_mac = r.src_mac;
  confidence = or_else r.confidence 100;
  evidence = r.evidence;
  metadata = or_option r.metadata row.metadata;
  last_seen = written;
  expires_at = now + retention ctx;
  occurrences = row.occurrences + 1;
}

-- The data of `prisma.detection.create`, with the schema's defaults
pub new_row : PersistContext → (now written : ℕ) → DetectionResult → Row
new_row ctx now written r = record {
  detector_id = ctx.detector_id;
  fingerprint = r.fingerprint;
  severity = r.severity;
  status = opened;
  title = r.title;
  description = r.description;
  remediation = or_option r.remediation ctx.remediation;
  references = ctx.references;
  affected_resource = r.affected_resource;
  src_mac = r.src_mac;
  confidence = or_else r.confidence 100;
  evidence = r.evidence;
  metadata = r.metadata;
  first_seen = written;
  last_seen = written;
  expires_at = now + retention ctx;
  occurrences = 1;
}

abbrev pub none_yet : PersistOutcome
none_yet = record { inserted = 0; refreshed = 0 }

-- `findUnique` told whether there is a row: the branch of one iteration
pub write :
    {S : Type 0}
    → Table S
    → PersistContext
    → (now written : ℕ) → S
    → DetectionResult
    → Option Row
    → S
write t ctx now written s r (some row) = t.update s r.fingerprint (refreshed_row ctx now written r)
write t ctx now written s r none = t.create s (new_row ctx now written r)

tally : Option Row → PersistOutcome → PersistOutcome
tally (some row) o = record o { refreshed = o.refreshed + 1 }
tally none o = record o { inserted = o.inserted + 1 }

-- One iteration
pub persist_one :
    {S : Type 0} → Table S → PersistContext → (now written : ℕ) → S → DetectionResult → S
persist_one t ctx now written s r = write t ctx now written s r (t.find_unique s r.fingerprint)

-- The loop, from the i-th reading of the clock
pub persist_from :
    {S : Type 0}
    → Table S
    → PersistContext
    → (ℕ → ℕ)
    → ℕ
    → S
    → PersistOutcome
    → List DetectionResult
    → S × PersistOutcome
unfolding tally
persist_from t ctx clock i s o [] = (s, o)
persist_from t ctx clock i s o (r ∷ rs) =
    persist_from t ctx clock (i + 2) (persist_one t ctx (clock i) (clock (i + 1)) s r)
      (tally (t.find_unique s r.fingerprint) o) rs

pub persist_detection_results :
    {S : Type 0}
    → Table S
    → PersistContext
    → (ℕ → ℕ)
    → ℕ
    → S
    → List DetectionResult
    → S × PersistOutcome
persist_detection_results t ctx clock i s rs = persist_from t ctx clock i s none_yet rs

is_settled : Status → Bool
is_settled resolved = true
is_settled dismissed = true
is_settled _ = false

-- The `where` clause of the sweep: past its expiry, or settled and quiet for seven days
pub is_stale : (now now' : ℕ) → Row → Bool
unfolding is_settled
is_stale now now' row =
    ltb row.expires_at now || (is_settled row.status && ltb row.last_seen (now' - 7 * day))

-- The sweep reads the clock twice.
pub cleanup_expired_detections : {S : Type 0} → Table S → (now now' : ℕ) → S → S × ℕ
cleanup_expired_detections t now now' s = t.delete_many s (is_stale now now')
