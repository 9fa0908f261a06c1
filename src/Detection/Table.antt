-- ===== src/Detection/Table.antt =====
-- The table of detections: a row as the Prisma schema declares it, and the operations of the
-- database client that detectionService.ts calls, with what the service relies on.
use zero_proof.Base.{ℕ, String, ◌≡◌, Bool, Option, none, some, List, str_eq, if◌then◌else◌}
use zero_proof.Detection.{Severity, Evidence, Metadata}

pub data Status : Type 0 where
  opened acknowledged resolved dismissed : Status

-- `model Detection`; `confidence` is in hundredths.
pub record Row : Type 0 where
  pub detector_id : String
  pub fingerprint : String
  pub severity : Severity
  pub status : Status
  pub title : String
  pub description : String
  pub remediation : Option String
  pub references : Option (List String)
  pub affected_resource : Option String
  pub src_mac : Option String
  pub confidence : ℕ
  pub evidence : List Evidence
  pub metadata : Option Metadata
  pub first_seen : ℕ
  pub last_seen : ℕ
  pub expires_at : ℕ
  pub occurrences : ℕ

-- What is left of a row when the rows that pass `p` are deleted
abbrev pub unless : (Row → Bool) → Option Row → Option Row
unless p none = none
unless p (some r) = if p r then none else some r

abbrev pub updated : (Row → Row) → Option Row → Option Row
updated f none = none
updated f (some r) = some (f r)

-- `prisma.detection` over a state of the database. The unique index on `fingerprint` makes a row
-- a function of its fingerprint; an update that keeps the fingerprint changes that row alone.
pub record Table (S : Type 0) : Type 0 where
  pub find_unique : S → String → Option Row
  pub update : S → String → (Row → Row) → S
  pub create : S → Row → S
  pub delete_many : S → (Row → Bool) → S × ℕ
  pub find-update :
      (s : S) (k j : String) (f : Row → Row)
      → ((r : Row) → (f r).fingerprint ≡ r.fingerprint)
      → find_unique (update s k f) j
        ≡ (if str_eq k j then updated f (find_unique s j) else find_unique s j)
  pub find-create :
      (s : S) (r : Row) (j : String)
      → find_unique s r.fingerprint ≡ none
      → find_unique (create s r) j ≡ (if str_eq r.fingerprint j then some r else find_unique s j)
  pub find-delete_many :
      (s : S) (p : Row → Bool) (j : String)
      → find_unique (delete_many s p).0 j ≡ unless p (find_unique s j)
