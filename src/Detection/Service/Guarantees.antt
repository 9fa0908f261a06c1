-- ===== src/Detection/Service/Guarantees.antt =====
-- What persisting findings and sweeping old rows guarantee, whatever the database.
use zero_proof.Base.{
  ℕ, ◌+◌, ◌-◌, ◌*◌, ◌≤◌, String, ◌≡◌, refl, sym, ◌∙◌, ◌↔◌, ◌⊎◌, inl, inr, Bool, true, false, Option,
  none, some, List, [], ◌∷◌, arith, eq_refl, Bool-cases, length, keep,
}
use zero_proof.Detection.{DetectionResult}
use zero_proof.Detection.Table.{Row, Table, unless, Status, opened, acknowledged}
use zero_proof.Detection.Service.{
  PersistContext, PersistOutcome, persist_one, persist_from, persist_detection_results, none_yet,
  is_stale, cleanup_expired_detections, retention, day, tally, is_settled,
}
use zero_proof.Detection.Service.Rows.{
  after, find-persist_from, occurrences-after, occurrences_of, severity-after, severity_of, worst,
  is_about, Continues, after-Continues, merged, merged_times,
}

module _ {S : Type 0} (t : Table S) (ctx : PersistContext) (clock : ℕ → ℕ) where
  find-persist :
      (i : ℕ) (s : S) (rs : List DetectionResult) (k : String)
      → t.find_unique (persist_detection_results t ctx clock i s rs).0 k
        ≡ after ctx clock i k (t.find_unique s k) rs
  unfolding persist_detection_results
  find-persist i s rs k = find-persist_from t ctx clock i s none_yet rs k

  -- Every finding is counted once, on the row of its fingerprint: the row's occurrences grow by the
  -- number of findings with that fingerprint, from 0 if there was no row.
  pub persist-occurrences :
      (i : ℕ) (s : S) (rs : List DetectionResult) (k : String)
      → occurrences_of (t.find_unique (persist_detection_results t ctx clock i s rs).0 k)
        ≡ occurrences_of (t.find_unique s k) + length (keep (is_about k) rs)
  persist-occurrences i s rs k =
      rw (find-persist i s rs k) (occurrences-after ctx clock i k (t.find_unique s k) rs)

  -- A row's severity is the worst of the one it had and those of the findings with its fingerprint.
  pub persist-worst :
      (i : ℕ) (s : S) (rs : List DetectionResult) (k : String)
      → severity_of (t.find_unique (persist_detection_results t ctx clock i s rs).0 k)
        ≡ worst (severity_of (t.find_unique s k)) (keep (is_about k) rs)
  persist-worst i s rs k =
      rw (find-persist i s rs k) (severity-after ctx clock i k (t.find_unique s k) rs)

  -- A row that is there stays, with its detector, fingerprint, status and first sighting; its
  -- severity and its occurrences do not fall.
  pub persist-Continues :
      (i : ℕ) (s : S) (rs : List DetectionResult) (k : String) (row : Row)
      → t.find_unique s k ≡ some row
      → (row' : Row) × (t.find_unique (persist_detection_results t ctx clock i s rs).0 k
          ≡ some row')
        × Continues row row'
  persist-Continues i s rs k row e =
      let (row', e', c) = after-Continues ctx clock i k row rs in
      (row', find-persist i s rs k ∙ rw e e', c)

  tally-sum :
      (found : Option Row) (o : PersistOutcome)
      → (tally found o).inserted + (tally found o).refreshed ≡ o.inserted + o.refreshed + 1
  unfolding tally
  tally-sum none o = omega arith
  tally-sum (some row) o = omega arith

  outcome-from :
      (i : ℕ) (s : S) (o : PersistOutcome) (rs : List DetectionResult)
      → (persist_from t ctx clock i s o rs).1.inserted
          + (persist_from t ctx clock i s o rs).1.refreshed
        ≡ o.inserted + o.refreshed + length rs
  unfolding persist_from
  outcome-from i s o [] = omega arith
  outcome-from i s o (r ∷ rs) =
      let found = t.find_unique s r.fingerprint in
      omega (
        arith,
        outcome-from (i + 2) (persist_one t ctx (clock i) (clock (i + 1)) s r) (tally found o) rs,
        tally-sum found o,
      )

  -- Each finding is reported as either inserted or refreshed.
  pub persist-outcome :
      (i : ℕ) (s : S) (rs : List DetectionResult)
      → (persist_detection_results t ctx clock i s rs).1.inserted
          + (persist_detection_results t ctx clock i s rs).1.refreshed
        ≡ length rs
  unfolding persist_detection_results
  persist-outcome i s rs = omega (arith, outcome-from i s none_yet rs)

-- What the sweep spares
abbrev pub IsKept : (now now' : ℕ) → Row → Type 0
IsKept now now' row =
    (now ≤ row.expires_at)
    × ((row.status ≡ opened) ⊎ (row.status ≡ acknowledged) ⊎ (now' - 7 * day ≤ row.last_seen))

settled_cases :
    (v : Status)
    → (is_settled v ≡ true) ⊎ (is_settled v ≡ false) × ((v ≡ opened) ⊎ (v ≡ acknowledged))
unfolding is_settled
settled_cases opened = inr (refl, inl refl)
settled_cases acknowledged = inr (refl, inr refl)
settled_cases Status.resolved = inl refl
settled_cases Status.dismissed = inl refl

is_stale_iff : (now now' : ℕ) (row : Row) → (is_stale now now' row ≡ false) ↔ IsKept now now' row
unfolding is_stale is_settled
is_stale_iff now now' row = (
  λ h. elim (settled_cases row.status) [ inl e ↦ ground arith | inr e ↦ ground arith ],
  λ k. elim (settled_cases row.status) [ inl e ↦ ground arith | inr e ↦ ground arith ],
)

kept_by :
    (p : Row → Bool) (o : Option Row) (row : Row)
    → (unless p o ≡ some row) ↔ ((o ≡ some row) × (p row ≡ false))
kept_by p none row = (λ h. cc, λ h. cc)
kept_by p (some r) row = elim (Bool-cases (p r)) [
  | inl q ↦ rw q (λ h. cc, λ h. cc)
  | inr q ↦ rw q (λ h. (h, ground arith), λ h. h.0)
]

module _ {S : Type 0} (t : Table S) where
  -- The sweep keeps, unchanged, exactly the rows that have not expired and are open, acknowledged or
  -- were last seen within the last seven days.
  pub sweep_iff :
      (now now' : ℕ) (s : S) (k : String) (row : Row)
      → (t.find_unique (cleanup_expired_detections t now now' s).0 k ≡ some row)
        ↔ ((t.find_unique s k ≡ some row) × IsKept now now' row)
  unfolding cleanup_expired_detections
  sweep_iff now now' s k row =
      let e = t.find-delete_many s (is_stale now now') k in
      let (to, from) = kept_by (is_stale now now') (t.find_unique s k) row in
      let (kept, stale) = is_stale_iff now now' row in
      (λ h. let q = to (sym e ∙ h) in (q.0, kept q.1), λ h. e ∙ from (h.0, stale h.1))

  -- A finding that has just been persisted survives every sweep that reads the clock within its
  -- retention and within seven days of the write, whatever its status.
  pub persisted-survives :
      (ctx : PersistContext) (clock : ℕ → ℕ) (i : ℕ) (s : S) (r : DetectionResult) (now now' : ℕ)
      → now ≤ clock i + retention ctx
      → now' ≤ clock (i + 1) + 7 * day
      → (row : Row) × (t.find_unique
            (cleanup_expired_detections t now now'
              (persist_detection_results t ctx clock i s (r ∷ [])).0).0
            r.fingerprint
          ≡ some row)
  persisted-survives ctx clock i s r now now' h h' =
      let old = t.find_unique s r.fingerprint in
      let row = merged ctx (clock i) (clock (i + 1)) r old in
      let written : t.find_unique (persist_detection_results t ctx clock i s (r ∷ [])).0
            r.fingerprint
          ≡ some row =
        find-persist t ctx clock i s (r ∷ []) r.fingerprint ∙ rw (eq_refl r.fingerprint) refl in
      let (expiry, seen) = merged_times ctx clock (clock i) (clock (i + 1)) r old in
      (
        row,
        (sweep_iff now now' _ r.fingerprint row).1
            (written, (omega arith, inr (inr (omega arith)))),
      )
