-- ===== src/Detection/Analytics/Top.antt =====
-- The most affected resources: how many there are, and what their counts are.
use zero_proof.Base.{
  ℕ, zero, suc, ◌+◌, ◌≤◌, String, ◌≡◌, refl, sym, ap, ◌∙◌, inl, inr, none, some, List, [], ◌∷◌,
  ◌++◌, map, arith, str_eq, eq_iff, eq_refl, ltb, leb, Bool-cases, or_else, length, All, keep,
  length-take, take,
}
use zero_proof.Base.Dict.{Dict, get, Unique}
use zero_proof.Base.Groups.{is_key, absorb, get-group, group-Unique}
use Prim.Native.Nat.{max}
use mathlib.Core.List.{append-nil, append_assoc}
use zero_proof.Detection.{info, severity_order, Severity}
use zero_proof.Detection.Analytics.{
  worse, AffectedRow, Bucket, TopAffected, max_severity, resource_of, counted, top_map, top_of,
  insert_top, sort_tops, top_affected,
}

module _ (P : TopAffected → Type 0) where
  insert_top-All :
      (a : TopAffected) (bs : List TopAffected) → P a → All P bs → All P (insert_top a bs)
  unfolding insert_top
  insert_top-All a [] p h = (p, tt)
  insert_top-All a (b ∷ bs) p h = elim (Bool-cases (leb b.count a.count)) [
    | inl le ↦ rw le (p, h)
    | inr gt ↦ rw gt (h.0, insert_top-All a bs p h.1)
  ]

  sort_tops-All : (as' : List TopAffected) → All P as' → All P (sort_tops as')
  unfolding sort_tops
  sort_tops-All [] h = tt
  sort_tops-All (a ∷ as') h = insert_top-All a (sort_tops as') h.0 (sort_tops-All as' h.1)

  take-All : (n : ℕ) (as' : List TopAffected) → All P as' → All P (take n as')
  take-All zero as' h = tt
  take-All (suc n) [] h = tt
  take-All (suc n) (a ∷ as') h = (h.0, take-All n as' h.1)

  map-All : (m : Dict Bucket) → All (λ e. P (top_of e)) m → All P (map top_of m)
  map-All [] h = tt
  map-All (e ∷ m) h = (h.0, map-All m h.1)

-- What the rows of a resource make of a bucket
absorb-counted :
    (rows : List AffectedRow) (b : Bucket)
    → absorb resource_of counted (some b) rows
      ≡ some record {
        count = b.count + length rows;
        severities = b.severities ++ map (λ a. a.severity) rows;
      }
unfolding counted
absorb-counted [] b =
    let e : b.count + 0 ≡ b.count = omega arith in rw (e, append-nil b.severities) refl
absorb-counted (a ∷ rows) b =
    let e : suc b.count + length rows ≡ b.count + suc (length rows) = omega arith in
    absorb-counted rows _
    ∙ rw (e, append_assoc b.severities (a.severity ∷ []) (map (λ r. r.severity) rows)) refl

absorb-none :
    (rows : List AffectedRow) (b : Bucket)
    → absorb resource_of counted none rows ≡ some b
    → (b.count ≡ length rows) × (b.severities ≡ map (λ a. a.severity) rows)
unfolding counted
absorb-none [] b h = cc
absorb-none (a ∷ rows) b h =
    let e = sym h ∙ absorb-counted rows (counted none a) in
    let one_more : 1 + length rows ≡ suc (length rows) = omega arith in
    (ap (λ o. (or_else o b).count) e ∙ one_more, ap (λ o. (or_else o b).severities) e)

-- The greatest order among severities
abbrev pub highest : List Severity → ℕ
highest [] = 0
highest (v ∷ vs) = max (severity_order v) (highest vs)

worse-highest :
    (vs : List Severity) (best : Severity)
    → severity_order (worse best vs) ≡ max (severity_order best) (highest vs)
unfolding worse
worse-highest [] best = omega arith
worse-highest (v ∷ vs) best = elim (Bool-cases (ltb (severity_order best) (severity_order v))) [
  | inl above ↦ rw above (worse-highest vs v ∙ ground arith)
  | inr below ↦ rw below (worse-highest vs best ∙ ground arith)
]

-- Where no key stands twice, every entry is the one that is found under its key.
found-entries :
    (whole m : Dict Bucket)
    → ((k : String) (b : Bucket) → get m k ≡ some b → get whole k ≡ some b)
    → Unique m
    → All (λ e. get whole e.0 ≡ some e.1) m
unfolding get
found-entries whole [] found u = tt
found-entries whole ((k, b) ∷ m) found u = (
  found k b (rw (eq_refl k) refl),
  found-entries whole m
      (λ j c h. found j c (elim (Bool-cases (str_eq k j)) [
        | inl same ↦ absurd (ground (arith, h, u.0, eq_iff k j))
        | inr other ↦ rw other h
      ]))
      u.1,
)

module _ (rows : List AffectedRow) where
  -- The rows of a resource
  abbrev pub rows_of : String → List AffectedRow
  rows_of k = keep (λ a. is_key k (resource_of a)) rows

  abbrev pub IsTold : TopAffected → Type 0
  IsTold t =
      (t.count ≡ length (rows_of t.resource))
      × (severity_order t.max_severity ≡ highest (map (λ a. a.severity) (rows_of t.resource)))

  entry-IsTold : (e : String × Bucket) → get (top_map rows) e.0 ≡ some e.1 → IsTold (top_of e)
  unfolding top_map top_of max_severity get
  entry-IsTold (k, b) h =
      let told = absorb-none (rows_of k) b (sym (get-group resource_of counted [] rows k) ∙ h) in
      let vs = map (λ a. a.severity) (rows_of k) in
      let least : max 0 (highest vs) ≡ highest vs = omega arith in
      (told.0, rw (told.1) (worse-highest vs info ∙ least))

  top_map-Unique : Unique (top_map rows)
  unfolding top_map
  top_map-Unique = group-Unique resource_of counted [] rows tt

  entries-IsTold :
      (m : Dict Bucket)
      → All (λ e. get (top_map rows) e.0 ≡ some e.1) m
      → All (λ e. IsTold (top_of e)) m
  entries-IsTold [] h = tt
  entries-IsTold (e ∷ m) h = (entry-IsTold e h.0, entries-IsTold m h.1)

  -- At most ten resources are listed, each with the number of its rows and the worst of their
  -- severities.
  pub top_affected-IsTold : (length (top_affected rows) ≤ 10) × All IsTold (top_affected rows)
  unfolding top_affected
  top_affected-IsTold =
      let sorted = sort_tops (map top_of (top_map rows)) in
      (
        omega (arith, length-take 10 sorted),
        take-All IsTold 10 sorted (
            sort_tops-All IsTold (map top_of (top_map rows)) (
              map-All IsTold (top_map rows) (
                entries-IsTold (top_map rows)
                  (found-entries (top_map rows) (top_map rows) (λ k b h. h) top_map-Unique)))),
      )
