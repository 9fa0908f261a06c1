-- ===== src/Detectors/ValidatedCompromise/Naming.antt =====
-- The candidates of stored findings under the ids of the flows that they name.
use zero_proof.Base.{
  String, ◌≡◌, inl, inr, true, List, [], ◌∷◌, ◌++◌, arith, eq_refl, Option-cases, or_else, All, has,
  All-append,
}
use zero_proof.Base.Dict.{get, get-All, set-All, Dict, set}
use zero_proof.Detectors.ValidatedCompromise.Candidates.{Candidate}
use zero_proof.Detectors.ValidatedCompromise.Matching.{index_ids, by_flow_id}

-- Each member of a list is had.
All-has : (xs : List String) → All (λ x. has xs x ≡ true) xs
All-has [] = tt
All-has (x ∷ xs) = (ground (arith, eq_refl x), later xs (All-has xs))
  where
    later : (ys : List String) → All (λ y. has xs y ≡ true) ys → All (λ y. has (x ∷ xs) y ≡ true) ys
    later [] h = tt
    later (y ∷ ys) h = (ground (arith, h.0), later ys h.1)

-- The candidates under each id name the flow with that id.
module _ (IsStored : Candidate → Type 0) where
  -- A stored candidate that names a flow
  abbrev pub Names : String → Candidate → Type 0
  Names id c = IsStored c × (has c.flow_ids id ≡ true)

  abbrev pub AreNaming : String × List Candidate → Type 0
  AreNaming e = All (Names e.0) e.1

  pub naming_at :
      (index : Dict (List Candidate)) (id : String)
      → All AreNaming index
      → All (Names id) (or_else (get index id) [])
  naming_at index id h = elim (Option-cases (get index id)) [
    | inl missing ↦ rw missing tt
    | inr (cs, found) ↦ rw found (get-All AreNaming index id cs h found)
  ]

  index_ids-AreNaming :
      (c : Candidate) (ids : List String) (d : Dict (List Candidate))
      → IsStored c
      → All (λ id. has c.flow_ids id ≡ true) ids
      → All AreNaming d
      → All AreNaming (index_ids c ids d)
  unfolding index_ids
  index_ids-AreNaming c [] d from named h = h
  index_ids-AreNaming c (id ∷ ids) d from named h =
      let all_name =
        All-append (Names id) (or_else (get d id) []) (c ∷ []) (naming_at d id h)
          ((from, named.0), tt) in
      index_ids-AreNaming c ids (set d id (or_else (get d id) [] ++ c ∷ [])) from named.1
        (set-All AreNaming d id (or_else (get d id) [] ++ c ∷ []) h all_name)

  pub by_flow_id-AreNaming :
      (cs : List Candidate) (d : Dict (List Candidate))
      → All IsStored cs
      → All AreNaming d
      → All AreNaming (by_flow_id cs d)
  unfolding by_flow_id
  by_flow_id-AreNaming [] d from h = h
  by_flow_id-AreNaming (c ∷ cs) d from h =
      by_flow_id-AreNaming cs (index_ids c c.flow_ids d) from.1
        (index_ids-AreNaming c c.flow_ids d from.0 (All-has c.flow_ids) h)
