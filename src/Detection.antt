-- ===== src/Detection.antt =====
-- detectors/framework.ts: what a detector is given and what it returns, with the severities of the
-- Prisma schema. Times are milliseconds since the epoch. The free-form `metadata` of a finding is a
-- list of named values.
pub mod Table
pub mod Service
pub mod Analytics
use zero_proof.Base.{ℕ, String, Bool, Option, List, leb, ◌&&◌, if◌then◌else◌}

pub data Severity : Type 0 where
  info low medium high critical : Severity

-- `SEVERITY_ORDER`
abbrev pub severity_order : Severity → ℕ
severity_order info = 0
severity_order low = 1
severity_order medium = 2
severity_order high = 3
severity_order critical = 4

abbrev pub max_severity : Severity → Severity → Severity
max_severity a b = if leb (severity_order b) (severity_order a) then a else b

pub data Evidence : Type 0 where
  flow : (id : String) → Evidence
  threat : (id : String) → Evidence
  dns_query : (id : String) → Evidence
  dns_signal : (id : String) → Evidence
  ioc : (ioc feed : String) → Evidence
  config : (ref : String) → Evidence

pub data MetaValue : Type 0 where
  undefined : MetaValue
  null : MetaValue
  text : String → MetaValue
  num : ℕ → MetaValue
  texts : List String → MetaValue

abbrev pub Metadata : Type 0
Metadata = List (String × MetaValue)

-- `confidence` is in hundredths.
pub record DetectionResult : Type 0 where
  pub fingerprint : String
  pub severity : Severity
  pub title : String
  pub description : String
  pub remediation : Option String
  pub affected_resource : Option String
  pub src_mac : Option String
  pub confidence : Option ℕ
  pub evidence : List Evidence
  pub metadata : Option Metadata

-- The window of a run: both ends belong to it.
pub record DetectorContext : Type 0 where
  pub begin_time : ℕ
  pub end_time : ℕ

abbrev pub in_window : DetectorContext → ℕ → Bool
in_window ctx t = leb ctx.begin_time t && leb t ctx.end_time
