-- ===== src/Detectors/Paging/Kept.antt =====
-- What the work on each page keeps, the whole loop keeps.
use zero_proof.Base.{
  ℕ, zero, suc, ◌<◌, String, ◌≡◌, refl, ◌∙◌, inl, inr, Bool, true, Option, none, some, List, [],
  ◌∷◌, ltb, Bool-cases, is_some, length, All, keep, take,
}
use mathlib.Core.List.{Mem, mem-cons_self, mem-cons_of_mem}
use zero_proof.Detectors.Paging.{PagedQuery, visit, last_id, fold_rows}
use zero_proof.Detectors.Paging.Visits.{visit-all}

-- A value that is there and has a property
abbrev pub OnSome : {A : Type 0} → (A → Type 0) → Option A → Type 0
OnSome P none = ⊥
OnSome P (some a) = P a

pub fold_rows-keeps {ℓ κ} :
    {A S : Type 0} (P : S → Type ℓ) (Q : A → Type κ) (step : S → A → S)
    → ((s : S) (a : A) → P s → Q a → P (step s a))
    → (rows : List A) (s : S) → P s
    → All Q rows
    → P (fold_rows step s rows)
fold_rows-keeps P Q step keeps [] s h q = h
fold_rows-keeps P Q step keeps (a ∷ rows) s h q =
    fold_rows-keeps P Q step keeps rows (step s a) (keeps s a h q.0) q.1

pub All-take {ℓ} :
    {A : Type 0} (Q : A → Type ℓ) (n : ℕ) (xs : List A) → All Q xs → All Q (take n xs)
All-take Q zero xs h = tt
All-take Q (suc n) [] h = tt
All-take Q (suc n) (x ∷ xs) h = (h.0, All-take Q n xs h.1)

pub All-any {ℓ} : {A : Type 0} (Q : A → Type ℓ) (xs : List A) → ((a : A) → Q a) → All Q xs
All-any Q [] h = tt
All-any Q (x ∷ xs) h = (h x, All-any Q xs h)

-- Whether the loop ends does not depend on the work.
visit-ends :
    {A S T : Type 0} (query : PagedQuery A) (work : S → List A → S) (other : T → List A → T)
    (fuel : ℕ) (cursor : Option String) (s : S) (t : T)
    → is_some (visit query work fuel cursor s) ≡ is_some (visit query other fuel cursor t)
unfolding visit
visit-ends query work other zero cursor s t = refl
visit-ends query work other (suc fuel) cursor s t =
    let page = query.find_many cursor in
    elim (Bool-cases (ltb (length page) query.size)) [
      | inl short ↦ rw short refl
      | inr full ↦ rw full (
          visit-ends query work other fuel (last_id query cursor page) (work s page) (other t page))
    ]

All-keep : {A : Type 0} (Q : A → Type 0) (p : A → Bool) (xs : List A) → All Q xs → All Q (keep p xs)
All-keep Q p [] h = tt
All-keep Q p (x ∷ xs) h = elim (Bool-cases (p x)) [
  | inl kept ↦ rw kept (h.0, All-keep Q p xs h.1)
  | inr left ↦ rw left (All-keep Q p xs h.1)
]

-- Each row is in the list.
pub All-Mem : {A : Type 0} (xs : List A) → All (λ a. Mem a xs) xs
All-Mem [] = tt
All-Mem (x ∷ xs) = (mem-cons_self, later xs (All-Mem xs))
  where
    later : (ys : List _) → All (λ a. Mem a xs) ys → All (λ a. Mem a (x ∷ xs)) ys
    later [] h = tt
    later (y ∷ ys) h = (mem-cons_of_mem x h.0, later ys h.1)

-- A page is made of rows of the table.
page-All :
    {A : Type 0} (query : PagedQuery A) (Q : A → Type 0) (cursor : Option String)
    → All Q query.rows
    → All Q (query.find_many cursor)
page-All query Q none h = rw query.first-page (All-take Q query.size query.rows h)
page-All {A} query Q (some c) h =
    let behind = λ (a : A). query.greater (query.id a) c in
    rw (query.next-page c)
      (All-take Q query.size (keep behind query.rows) (All-keep Q behind query.rows h))

keeps-from :
    {A S : Type 0} (query : PagedQuery A) (work : S → List A → S) (P : S → Type 0) (Q : A → Type 0)
    → All Q query.rows
    → ((s : S) (page : List A) → P s → All Q page → P (work s page))
    → (fuel : ℕ) (cursor : Option String) (s : S) → P s
    → is_some (visit query work fuel cursor s) ≡ true
    → OnSome P (visit query work fuel cursor s)
unfolding visit
keeps-from query work P Q rows keeps zero cursor s h e = absurd (cc)
keeps-from query work P Q rows keeps (suc fuel) cursor s h e =
    let page = query.find_many cursor in
    let kept = keeps s page h (page-All query Q cursor rows) in
    elim (Bool-cases (ltb (length page) query.size)) [
      | inl short ↦ rw short kept
      | inr full ↦ rw full (
          keeps-from query work P Q rows keeps fuel (last_id query cursor page) (work s page) kept
            (rw full at e))
    ]

-- With more fuel than rows the loop ends, and its result has what the work on a page of rows of the
-- table keeps.
pub visit-keeps :
    {A S : Type 0} (query : PagedQuery A) (work : S → List A → S) (P : S → Type 0) (Q : A → Type 0)
    → All Q query.rows
    → ((s : S) (page : List A) → P s → All Q page → P (work s page))
    → (fuel : ℕ) (s : S) → length query.rows < fuel
    → P s
    → OnSome P (visit query work fuel none s)
visit-keeps query work P Q rows keeps fuel s enough h =
    keeps-from query work P Q rows keeps fuel none s h (
      visit-ends query work (fold_rows (λ (n : ℕ) a. n)) fuel none s 0
      ∙ (rw (visit-all query (λ (n : ℕ) a. n) fuel 0 enough) refl))
