-- ===== src/Detection/Service/Rows.antt =====
-- What becomes of a fingerprint's row when findings are persisted.
use zero_proof.Base.{
  ℕ, ◌+◌, ◌≤◌, String, ◌≡◌, refl, ap, ◌∙◌, inl, inr, Bool, Option, none, some, List, [], ◌∷◌, arith,
  str_eq, eq_iff, if◌then◌else◌, Bool-cases, length, keep,
}
use zero_proof.Detection.{DetectionResult, Severity, max_severity, severity_order}
use zero_proof.Detection.Table.{Row, Table}
use zero_proof.Detection.Service.{
  PersistContext, refreshed_row, new_row, persist_one, persist_from, write, PersistOutcome,
  retention,
}

abbrev pub merged : PersistContext → (now written : ℕ) → DetectionResult → Option Row → Row
merged ctx now written r none = new_row ctx now written r
merged ctx now written r (some row) = refreshed_row ctx now written r row

abbrev pub is_about : String → DetectionResult → Bool
is_about k r = str_eq r.fingerprint k

-- The row under one fingerprint after a list of findings
abbrev pub after :
    PersistContext → (ℕ → ℕ) → ℕ → String → Option Row → List DetectionResult → Option Row
after ctx clock i k o [] = o
after ctx clock i k o (r ∷ rs) =
    after ctx clock (i + 2) k
      (if is_about k r then some (merged ctx (clock i) (clock (i + 1)) r o) else o) rs

-- The worst severity of a row and of later findings
abbrev pub worst : Option Severity → List DetectionResult → Option Severity
worst o [] = o
worst none (r ∷ rs) = worst (some r.severity) rs
worst (some v) (r ∷ rs) = worst (some (max_severity v r.severity)) rs

abbrev pub severity_of : Option Row → Option Severity
severity_of none = none
severity_of (some row) = some row.severity

abbrev pub occurrences_of : Option Row → ℕ
occurrences_of none = 0
occurrences_of (some row) = row.occurrences

-- What a row keeps while findings refresh it
pub record Continues (row row' : Row) : Type 0 where
  pub same_detector : row'.detector_id ≡ row.detector_id
  pub same_fingerprint : row'.fingerprint ≡ row.fingerprint
  pub same_status : row'.status ≡ row.status
  pub same_first_seen : row'.first_seen ≡ row.first_seen
  pub no_milder : severity_order row.severity ≤ severity_order row'.severity
  pub no_fewer : row.occurrences ≤ row'.occurrences

pub Continues-refl : (row : Row) → Continues row row
Continues-refl row = ground arith

pub Continues-trans : {a b c : Row} → Continues a b → Continues b c → Continues a c
Continues-trans h k = ground arith

max_severity-ge : (a b : Severity) → severity_order a ≤ severity_order (max_severity a b)
max_severity-ge a b = ground arith

module _ {S : Type 0} (t : Table S) (ctx : PersistContext) where
  find-write :
      (now written : ℕ) (s : S) (r : DetectionResult) (k : String) (o : Option Row)
      → t.find_unique s r.fingerprint ≡ o
      → t.find_unique (write t ctx now written s r o) k ≡ (
          if is_about k r
          then some (merged ctx now written r (t.find_unique s k))
          else t.find_unique s k)
  unfolding write new_row refreshed_row
  find-write now written s r k none e =
      t.find-create s (new_row ctx now written r) k e ∙ elim (Bool-cases (str_eq r.fingerprint k)) [
        | inl same ↦ rw (same, ← (eq_iff r.fingerprint k).0 same, e) refl
        | inr other ↦ rw other refl
      ]
  find-write now written s r k (some row) e =
      t.find-update s r.fingerprint k (refreshed_row ctx now written r) (λ old. refl)
      ∙ elim (Bool-cases (str_eq r.fingerprint k)) [
        | inl same ↦ rw (same, ← (eq_iff r.fingerprint k).0 same, e) refl
        | inr other ↦ rw other refl
      ]

  pub find-persist_from :
      (clock : ℕ → ℕ) (i : ℕ) (s : S) (o : PersistOutcome) (rs : List DetectionResult) (k : String)
      → t.find_unique (persist_from t ctx clock i s o rs).0 k
        ≡ after ctx clock i k (t.find_unique s k) rs
  unfolding persist_from persist_one
  find-persist_from clock i s o [] k = refl
  find-persist_from clock i s o (r ∷ rs) k =
      find-persist_from clock (i + 2) _ _ rs k
      ∙ ap (λ x. after ctx clock (i + 2) k x rs)
          (find-write (clock i) (clock (i + 1)) s r k (t.find_unique s r.fingerprint) refl)

module _ (ctx : PersistContext) (clock : ℕ → ℕ) where
  merged-occurrences :
      (now written : ℕ) (r : DetectionResult) (o : Option Row)
      → (merged ctx now written r o).occurrences ≡ occurrences_of o + 1
  unfolding refreshed_row new_row
  merged-occurrences now written r none = refl
  merged-occurrences now written r (some row) = refl

  pub occurrences-after :
      (i : ℕ) (k : String) (o : Option Row) (rs : List DetectionResult)
      → occurrences_of (after ctx clock i k o rs) ≡ occurrences_of o + length (keep (is_about k) rs)
  occurrences-after i k o [] = omega arith
  occurrences-after i k o (r ∷ rs) = elim (Bool-cases (is_about k r)) [
    | inl same ↦
        let row = merged ctx (clock i) (clock (i + 1)) r o in
        rw same (
          omega (
            arith,
            occurrences-after (i + 2) k (some row) rs,
            merged-occurrences (clock i) (clock (i + 1)) r o,
          ))
    | inr other ↦ rw other (occurrences-after (i + 2) k o rs)
  ]

  worst-merged :
      (now written : ℕ) (r : DetectionResult) (o : Option Row) (rs : List DetectionResult)
      → worst (some (merged ctx now written r o).severity) rs ≡ worst (severity_of o) (r ∷ rs)
  unfolding refreshed_row new_row
  worst-merged now written r none rs = refl
  worst-merged now written r (some row) rs = refl

  pub severity-after :
      (i : ℕ) (k : String) (o : Option Row) (rs : List DetectionResult)
      → severity_of (after ctx clock i k o rs) ≡ worst (severity_of o) (keep (is_about k) rs)
  severity-after i k o [] = refl
  severity-after i k o (r ∷ rs) = elim (Bool-cases (is_about k r)) [
    | inl same ↦
        let row = merged ctx (clock i) (clock (i + 1)) r o in
        rw same (
          severity-after (i + 2) k (some row) rs
          ∙ worst-merged (clock i) (clock (i + 1)) r o (keep (is_about k) rs))
    | inr other ↦ rw other (severity-after (i + 2) k o rs)
  ]

  pub merged_times :
      (now written : ℕ) (r : DetectionResult) (o : Option Row)
      → ((merged ctx now written r o).expires_at ≡ now + retention ctx)
        × ((merged ctx now written r o).last_seen ≡ written)
  unfolding refreshed_row new_row
  merged_times now written r none = (refl, refl)
  merged_times now written r (some row) = (refl, refl)

  merged-Continues :
      (now written : ℕ) (r : DetectionResult) (row : Row)
      → Continues row (merged ctx now written r (some row))
  unfolding refreshed_row
  merged-Continues now written r row = record {
    same_detector = refl;
    same_fingerprint = refl;
    same_status = refl;
    same_first_seen = refl;
    no_milder = max_severity-ge row.severity r.severity;
    no_fewer = omega arith;
  }

  pub after-Continues :
      (i : ℕ) (k : String) (row : Row) (rs : List DetectionResult)
      → (row' : Row) × (after ctx clock i k (some row) rs ≡ some row') × Continues row row'
  after-Continues i k row [] = (row, refl, Continues-refl row)
  after-Continues i k row (r ∷ rs) = elim (Bool-cases (is_about k r)) [
    | inl same ↦
        let next = merged ctx (clock i) (clock (i + 1)) r (some row) in
        let (row', e, c) = after-Continues (i + 2) k next rs in
        (row', rw same e, Continues-trans (merged-Continues (clock i) (clock (i + 1)) r row) c)
    | inr other ↦ let (row', e, c) = after-Continues (i + 2) k row rs in (row', rw other e, c)
  ]
