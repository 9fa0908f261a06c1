-- ===== src/Runner/Guarantees.antt =====
-- What a run of all detectors guarantees, whichever of them fail.
use zero_proof.Base.{
  ℕ, ◌+◌, ◌≤◌, String, ◌≡◌, refl, ap, inl, inr, Option, none, some, List, [], ◌∷◌, ◌++◌, arith,
  Option-cases, length, keep,
}
use zero_proof.Detection.{DetectionResult}
use zero_proof.Detection.Table.{Row, Table}
use zero_proof.Detection.Service.Rows.{
  occurrences_of, is_about, Continues, Continues-refl, Continues-trans,
}
use zero_proof.Detection.Service.Guarantees.{persist-Continues, persist-occurrences}
use zero_proof.Runner.{
  Detector, DetectorRule, run_one, run_from, persist_findings, run_all_detectors, run_detector,
  persist_context, Progress, findings_persisted, counted, window_of, started,
}

-- A row that is there before is there after, continued.
abbrev Keeps : {S : Type 0} → Table S → String → S → S → Type 0
Keeps t k s s' =
    (row : Row)
    → t.find_unique s k ≡ some row
    → (row' : Row) × (t.find_unique s' k ≡ some row') × Continues row row'

module _ {S : Type 0} (t : Table S) (rules : String → Option DetectorRule) (clock : ℕ → ℕ) where
  counts-run_one :
      (p : Progress t rules clock) (d : Detector S)
      → (run_one t rules clock p d).summary.evaluated + (run_one t rules clock p d).summary.failed
        ≡ p.summary.evaluated + p.summary.failed + 1
  unfolding run_one run_detector findings_persisted counted
  counts-run_one p d = elim (Option-cases (d.evaluate p.state (window_of d (clock p.next)))) [
    | inl failed ↦ rw failed (omega arith)
    | inr (rs, returned) ↦ rw returned (omega arith)
  ]

  counts-run_from :
      (p : Progress t rules clock) (ds : List (Detector S))
      → (run_from t rules clock p ds).summary.evaluated
          + (run_from t rules clock p ds).summary.failed
        ≡ p.summary.evaluated + p.summary.failed + length ds
  unfolding run_from
  counts-run_from p [] = omega arith
  counts-run_from p (d ∷ ds) =
      omega (arith, counts-run_from (run_one t rules clock p d) ds, counts-run_one p d)

  -- Every listed detector is counted once, as evaluated or as failed.
  pub run_all_detectors-counts :
      (i : ℕ) (s : S) (ds : List (Detector S))
      → (run_all_detectors t rules clock i s ds).summary.evaluated
          + (run_all_detectors t rules clock i s ds).summary.failed
        ≡ length ds
  unfolding run_all_detectors
  run_all_detectors-counts i s ds = omega (arith, counts-run_from (started t rules clock i s) ds)

  Keeps-findings :
      (i : ℕ) (s : S) (d : Detector S) (rs : List DetectionResult) (k : String)
      → Keeps t k s (persist_findings t rules clock i s d rs).state
  unfolding persist_findings
  Keeps-findings i s d [] k row e = (row, e, Continues-refl row)
  Keeps-findings i s d (r ∷ rs) k row e =
      persist-Continues t (persist_context d.id (rules d.id)) clock (i + 1) s (r ∷ rs) k row e

  Keeps-run_one :
      (p : Progress t rules clock) (d : Detector S) (k : String)
      → Keeps t k p.state (run_one t rules clock p d).state
  unfolding run_one run_detector findings_persisted counted
  Keeps-run_one p d k row e =
      elim (Option-cases (d.evaluate p.state (window_of d (clock p.next)))) [
        | inl failed ↦ rw failed (row, e, Continues-refl row)
        | inr (rs, returned) ↦ rw returned (Keeps-findings p.next p.state d rs k row e)
      ]

  Keeps-run_from :
      (p : Progress t rules clock) (ds : List (Detector S)) (k : String)
      → Keeps t k p.state (run_from t rules clock p ds).state
  unfolding run_from
  Keeps-run_from p [] k row e = (row, e, Continues-refl row)
  Keeps-run_from p (d ∷ ds) k row e =
      let (row', e', c) = Keeps-run_one p d k row e in
      let (row'', e'', c') = Keeps-run_from (run_one t rules clock p d) ds k row' e' in
      (row'', e'', Continues-trans c c')

  -- Whatever the detectors report and whichever of them fail, a row that is there before a run is
  -- there after it, with its detector, fingerprint, status and first sighting; its severity and its
  -- occurrences do not fall.
  pub run_all_detectors-Continues :
      (i : ℕ) (s : S) (ds : List (Detector S)) (k : String) (row : Row)
      → t.find_unique s k ≡ some row
      → (row' : Row) × (t.find_unique (run_all_detectors t rules clock i s ds).state k ≡ some row')
        × Continues row row'
  unfolding run_all_detectors
  run_all_detectors-Continues i s ds k row e = Keeps-run_from _ ds k row e

  -- The row of the fingerprint is there, and its occurrences are at least `n`.
  abbrev HasRow : S → String → ℕ → Type 0
  HasRow s k n = (row : Row) × (t.find_unique s k ≡ some row) × (n ≤ row.occurrences)

  counted_row : (o : Option Row) → 1 ≤ occurrences_of o → (row : Row) × (o ≡ some row)
  counted_row none h = absurd (ground arith)
  counted_row (some row) h = (row, refl)

  lands-findings :
      (i : ℕ) (s : S) (d : Detector S) (rs : List DetectionResult) (k : String)
      → 1 ≤ length (keep (is_about k) rs)
      → HasRow
          (persist_findings t rules clock i s d rs).state
          k
          (occurrences_of (t.find_unique s k) + length (keep (is_about k) rs))
  unfolding persist_findings
  lands-findings i s d [] k h = absurd (ground arith)
  lands-findings i s d (r ∷ rs) k h =
      let c = persist_context d.id (rules d.id) in
      let n = persist-occurrences t c clock (i + 1) s (r ∷ rs) k in
      let (row, e) = counted_row _ (omega (arith, n)) in
      (row, e, omega (arith, n, ap occurrences_of e))

  lands-run_one :
      (p : Progress t rules clock) (d : Detector S) (rs : List DetectionResult) (k : String)
      → d.evaluate p.state (window_of d (clock p.next)) ≡ some rs
      → 1 ≤ length (keep (is_about k) rs)
      → HasRow
          (run_one t rules clock p d).state
          k
          (occurrences_of (t.find_unique p.state k) + length (keep (is_about k) rs))
  unfolding run_one run_detector findings_persisted counted
  lands-run_one p d rs k returned h = rw returned (lands-findings p.next p.state d rs k h)

  lands-run_from :
      (p : Progress t rules clock) (before after : List (Detector S)) (d : Detector S)
      (rs : List DetectionResult) (k : String)
      → d.evaluate
          (run_from t rules clock p before).state
          (window_of d (clock (run_from t rules clock p before).next))
        ≡ some rs
      → 1 ≤ length (keep (is_about k) rs)
      → HasRow (run_from t rules clock p (before ++ d ∷ after)).state k (
          occurrences_of (t.find_unique (run_from t rules clock p before).state k)
          + length (keep (is_about k) rs))
  unfolding run_from
  lands-run_from p [] after d rs k returned h =
      let (row, e, n) = lands-run_one p d rs k returned h in
      let (row', e', c) = Keeps-run_from (run_one t rules clock p d) after k row e in
      (row', e', omega (arith, n, c.no_fewer))
  lands-run_from p (b ∷ bs) after d rs k returned h =
      lands-run_from (run_one t rules clock p b) bs after d rs k returned h

  -- Where a detector, run on the database that the detectors before it left and on the window that
  -- ends at the time of its run, returns findings with a fingerprint, there is a row for that
  -- fingerprint after the run of all detectors, whichever of the others fail; its occurrences are at
  -- least those it had when the detector ran and one for each of these findings.
  pub run_all_detectors-lands :
      (i : ℕ) (s : S) (before after : List (Detector S)) (d : Detector S)
      (rs : List DetectionResult) (k : String)
      → d.evaluate
          (run_all_detectors t rules clock i s before).state
          (window_of d (clock (run_all_detectors t rules clock i s before).next))
        ≡ some rs
      → 1 ≤ length (keep (is_about k) rs)
      → (row : Row) × (t.find_unique
            (run_all_detectors t rules clock i s (before ++ d ∷ after)).state
            k
          ≡ some row)
        × (occurrences_of (t.find_unique (run_all_detectors t rules clock i s before).state k)
              + length (keep (is_about k) rs)
            ≤ row.occurrences)
  unfolding run_all_detectors
  run_all_detectors-lands i s before after d rs k returned h =
      lands-run_from (started t rules clock i s) before after d rs k returned h
