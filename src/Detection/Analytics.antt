-- ===== src/Detection/Analytics.antt =====
-- services/detection/detectionAnalytics.ts, getDetectionSummary: the most affected resources. The
-- rows are those of the window.
pub mod Top
use zero_proof.Base.{
  ℕ, suc, String, Option, none, some, List, [], ◌∷◌, ◌++◌, map, ltb, leb, if◌then◌else◌, take,
}
use zero_proof.Base.Dict.{Dict}
use zero_proof.Base.Groups.{group}
use zero_proof.Base.Text.{is_empty}
use zero_proof.Detection.{Severity, info, severity_order}

pub record AffectedRow : Type 0 where
  pub affected_resource : Option String
  pub severity : Severity

pub record Bucket : Type 0 where
  pub count : ℕ
  pub severities : List Severity

pub record TopAffected : Type 0 where
  pub resource : String
  pub count : ℕ
  pub max_severity : Severity

worse : Severity → List Severity → Severity
worse best [] = best
worse best (v ∷ vs) = worse (if ltb (severity_order best) (severity_order v) then v else best) vs

-- `maxSeverity`
pub max_severity : List Severity → Severity
unfolding worse
max_severity vs = worse info vs

-- The resource of a row, `none` where the loop goes on to the next
resource_in : Option String → Option String
resource_in none = none
resource_in (some r) = if is_empty r then none else some r

pub resource_of : AffectedRow → Option String
unfolding resource_in
resource_of a = resource_in a.affected_resource

pub counted : Option Bucket → AffectedRow → Bucket
counted none a = record { count = 1; severities = a.severity ∷ [] }
counted (some b) a = record { count = suc b.count; severities = b.severities ++ a.severity ∷ [] }

pub top_map : List AffectedRow → Dict Bucket
top_map rows = group resource_of counted [] rows

pub top_of : String × Bucket → TopAffected
top_of (k, b) = record { resource = k; count = b.count; max_severity = max_severity b.severities }

-- `.sort((a, b) => b.count - a.count)`
insert_top : TopAffected → List TopAffected → List TopAffected
insert_top a [] = a ∷ []
insert_top a (b ∷ bs) =
    let rest = insert_top a bs in if leb b.count a.count then a ∷ b ∷ bs else b ∷ rest

sort_tops : List TopAffected → List TopAffected
unfolding insert_top
sort_tops [] = []
sort_tops (a ∷ more) = insert_top a (sort_tops more)

pub top_affected : List AffectedRow → List TopAffected
unfolding sort_tops
top_affected rows = take 10 (sort_tops (map top_of (top_map rows)))
