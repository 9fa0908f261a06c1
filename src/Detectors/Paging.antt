-- ===== src/Detectors/Paging.antt =====
-- The loop `for (;;)` that reads a table page by page, each page behind the last id of the one before.
pub mod Visits
pub mod Kept
use zero_proof.Base.{
  ℕ, zero, suc, ◌≤◌, String, ◌≡◌, Bool, true, false, Option, none, some, List, [], ◌∷◌, ltb,
  if◌then◌else◌, length, All, keep, take,
}

-- Each row comes before the rows after it.
abbrev pub Ascending :
    {A : Type 0} → (greater : String → String → Bool) → (id : A → String) → List A → Type 0
Ascending greater id [] = Unit
Ascending greater id (a ∷ as') =
    (greater (id a) (id a) ≡ false)
    × All (λ b. (greater (id b) (id a) ≡ true) × (greater (id a) (id b) ≡ false)) as'
    × Ascending greater id as'

-- `findMany` with `orderBy: { id: 'asc' }`, `take: size` and, behind a cursor, `id: { gt: cursor }`:
-- of the rows of its window, in the order of their distinct ids, the first ones behind the cursor
pub record PagedQuery (A : Type 0) : Type 0 where
  pub id : A → String
  pub greater : String → String → Bool
  pub size : ℕ
  pub rows : List A
  pub find_many : Option String → List A
  pub size-positive : 1 ≤ size
  pub first-page : find_many none ≡ take size rows
  pub next-page :
      (cursor : String)
      → find_many (some cursor) ≡ take size (keep (λ a. greater (id a) cursor) rows)
  pub ordered : Ascending greater id rows

module _ {A : Type 0} (query : PagedQuery A) where
  -- The id of the last row of a page
  last_id : Option String → List A → Option String
  last_id cursor [] = cursor
  last_id cursor (a ∷ page) = last_id (some (query.id a)) page

  -- The loop from a cursor on; `none` where the fuel does not reach its end
  pub visit : {S : Type 0} → (S → List A → S) → ℕ → Option String → S → Option S
  visit work zero cursor s = none
  visit work (suc fuel) cursor s =
      let page = query.find_many cursor in
      let s' = work s page in
      let rest = visit work fuel (last_id cursor page) s' in
      if ltb (length page) query.size then some s' else rest

-- A loop over the rows of a page
abbrev pub fold_rows {ℓ κ} : {A : Type ℓ} {S : Type κ} → (S → A → S) → S → List A → S
fold_rows step s [] = s
fold_rows step s (a ∷ as') = fold_rows step (step s a) as'
