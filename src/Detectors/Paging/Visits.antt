-- ===== src/Detectors/Paging/Visits.antt =====
-- The loop ends and visits every row once, in the order of the ids.
use zero_proof.Base.{
  ℕ, zero, suc, ◌+◌, ◌≤◌, ◌<◌, String, ◌≡◌, refl, sym, ap, ◌∙◌, inl, inr, Bool, true, false, Option,
  none, some, List, [], ◌∷◌, ◌++◌, arith, ltb, Bool-cases, length, All, keep, take, take_all,
  length-take, length-append,
}
use mathlib.Core.List.{append_assoc}
use zero_proof.Detectors.Paging.{Ascending, fold_rows, PagedQuery, visit, last_id}

module _ {A : Type 0} where
  -- The rows behind a full page
  pub record FullPage (n : ℕ) (as' : List A) : Type 0 where
    pub init : List A
    pub last : A
    pub behind : List A
    pub page : take n as' ≡ init ++ last ∷ []
    pub whole : as' ≡ init ++ last ∷ behind

  page_at : (n : ℕ) (as' : List A) → n ≤ length as' → 1 ≤ n → FullPage n as'
  page_at zero as' h k = absurd (omega arith)
  page_at (suc n) [] h k = absurd (omega arith)
  page_at (suc zero) (a ∷ as') h k = record {
    init = [];
    last = a;
    behind = as';
    page = refl;
    whole = refl;
  }
  page_at (suc (suc n)) (a ∷ as') h k =
      let more = page_at (suc n) as' (omega arith) (omega arith) in
      record {
        init = a ∷ more.init;
        last = more.last;
        behind = more.behind;
        page = ap (λ xs. a ∷ xs) more.page;
        whole = ap (λ xs. a ∷ xs) more.whole;
      }

  fold_rows-append :
      {S : Type 0} (step : S → A → S) (s : S) (xs ys : List A)
      → fold_rows step s (xs ++ ys) ≡ fold_rows step (fold_rows step s xs) ys
  fold_rows-append step s [] ys = refl
  fold_rows-append step s (x ∷ xs) ys = fold_rows-append step (step s x) xs ys

module _ {A : Type 0} (greater : String → String → Bool) (id : A → String) where
  abbrev Follows : A → A → Type 0
  Follows a b = (greater (id b) (id a) ≡ true) × (greater (id a) (id b) ≡ false)

  keep-rest : (a : A) (bs : List A) → All (Follows a) bs → keep (λ b. greater (id b) (id a)) bs ≡ bs
  keep-rest a [] h = refl
  keep-rest a (b ∷ bs) h = rw (h.0.0) (ap (λ xs. b ∷ xs) (keep-rest a bs h.1))

  All-at : (P : A → Type 0) (xs ys : List A) (a : A) → All P (xs ++ a ∷ ys) → P a
  All-at P [] ys a h = h.0
  All-at P (x ∷ xs) ys a h = All-at P xs ys a h.1

  -- Follows the id of a row are the rows that come after it.
  keep-behind :
      (xs ys : List A) (a : A)
      → Ascending greater id (xs ++ a ∷ ys)
      → keep (λ b. greater (id b) (id a)) (xs ++ a ∷ ys) ≡ ys
  keep-behind [] ys a h = rw (h.0) (keep-rest a ys h.1)
  keep-behind (x ∷ xs) ys a h = rw ((All-at (Follows x) xs ys a h.1).1) (keep-behind xs ys a h.2)

module _ {A S : Type 0} (query : PagedQuery A) (step : S → A → S) where
  last_id-append :
      (cursor : Option String) (xs : List A) (a : A)
      → last_id query cursor (xs ++ a ∷ []) ≡ some (query.id a)
  unfolding last_id
  last_id-append cursor [] a = refl
  last_id-append cursor (x ∷ xs) a = last_id-append (some (query.id x)) xs a

  -- The page behind the last row of a full page
  find_many-behind :
      (before : List A) (todo : List A) (split : FullPage query.size todo)
      → query.rows ≡ before ++ todo
      → query.find_many (some (query.id split.last)) ≡ take query.size split.behind
  find_many-behind before todo split at_rows =
      let e : query.rows ≡ (before ++ split.init) ++ split.last ∷ split.behind =
        at_rows
        ∙ ap (λ xs. before ++ xs) split.whole
        ∙ sym (append_assoc before split.init (split.last ∷ split.behind)) in
      query.next-page (query.id split.last)
      ∙ ap (take query.size) (
          rw e (
            keep-behind query.greater query.id (before ++ split.init) split.behind split.last
              (rw e at query.ordered)))

  visit-from :
      (fuel : ℕ) (before todo : List A) (cursor : Option String) (s : S)
      → query.rows ≡ before ++ todo
      → query.find_many cursor ≡ take query.size todo
      → length todo < fuel
      → visit query (fold_rows step) fuel cursor s ≡ some (fold_rows step s todo)
  unfolding visit
  visit-from zero before todo cursor s at_rows at_page h = absurd (omega arith)
  visit-from (suc fuel) before todo cursor s at_rows at_page h =
      let n = query.size in
      elim (Bool-cases (ltb (length (take n todo)) n)) [
        | inl short ↦ rw at_page (
            rw short (
              ap (λ xs. some (fold_rows step s xs))
                (take_all n todo (ground (arith, length-take n todo)))))
        | inr full ↦
            let split = page_at n todo (ground (arith, length-take n todo)) query.size-positive in
            let page = split.init ++ split.last ∷ [] in
            let both : todo ≡ page ++ split.behind =
              split.whole ∙ sym (append_assoc split.init (split.last ∷ []) split.behind) in
            let count : length todo ≡ length page + length split.behind =
              ap length both ∙ length-append page split.behind in
            let some_row = length-append split.init (split.last ∷ []) in
            rw at_page (
              rw full (
                rw (split.page, last_id-append cursor split.init split.last)
                  (visit-from fuel (before ++ page) split.behind (some (query.id split.last))
                      (fold_rows step s page)
                      (at_rows
                        ∙ ap (λ xs. before ++ xs) both
                        ∙ sym (append_assoc before page split.behind))
                      (find_many-behind before todo split at_rows)
                      (omega (arith, count, some_row, h))
                    ∙ ap some (
                        sym (fold_rows-append step s page split.behind)
                        ∙ ap (fold_rows step s) (sym both)))))
      ]

  -- With more fuel than rows the loop ends, and it has visited every row of the window once, in the
  -- order of the ids.
  pub visit-all :
      (fuel : ℕ) (s : S)
      → length query.rows < fuel
      → visit query (fold_rows step) fuel none s ≡ some (fold_rows step s query.rows)
  visit-all fuel s h = visit-from fuel [] query.rows none s refl query.first-page h

-- Pages that are worked on alike are visited alike.
pub visit-cong :
    {A S : Type 0} (query : PagedQuery A) (work work' : S → List A → S)
    → ((s : S) (page : List A) → work s page ≡ work' s page)
    → (fuel : ℕ) (cursor : Option String) (s : S)
    → visit query work fuel cursor s ≡ visit query work' fuel cursor s
unfolding visit
visit-cong query work work' same zero cursor s = refl
visit-cong query work work' same (suc fuel) cursor s =
    let page = query.find_many cursor in
    rw
      (
        same s page,
        visit-cong query work work' same fuel (last_id query cursor page) (work' s page),
      )
      refl
