-- ===== src/Base/Dict.antt =====
-- JavaScript's `Map` with string keys: its entries in the order of their first insertion.
use Prim.Native.String.{String, ◌++◌ as append}
use mathlib.Core.Path.{◌≡◌, refl, ◌∙◌, subst}
use mathlib.Core.Bool.{false}
use mathlib.Core.Logic.{inl, inr}
use mathlib.Core.Option.{Option, none, some}
use mathlib.Core.List.{List, [], ◌∷◌}
use native.Mathlib.Omega.{arith}
use text.Mathlib.Text.{◌==◌ as str_eq}
use text.Mathlib.TextEquality.{eq_iff}
use text.Mathlib.TextPositions.{eq_refl}
use text.Mathlib.TextLemmas.{append_cancel_left}
use zero_proof.Base.Tests.{if◌then◌else◌, Bool-cases}
use zero_proof.Base.Lists.{All, find}

abbrev pub Dict {ℓ} : Type ℓ → Type ℓ
Dict V = List (String × V)

module _ {ℓ} {V : Type ℓ} where
  -- `m.get(k)`
  unfoldable pub get : Dict V → String → Option V
  get [] k = none
  get ((j, v) ∷ m) k = if str_eq j k then some v else get m k

  -- `m.set(k, v)`: a key that is there keeps its place
  unfoldable pub set : Dict V → String → V → Dict V
  set [] k v = (k, v) ∷ []
  set ((j, w) ∷ m) k v = if str_eq j k then (j, v) ∷ m else (j, w) ∷ set m k v

  -- `m.delete(k)`
  unfoldable pub remove : Dict V → String → Dict V
  remove [] k = []
  remove ((j, v) ∷ m) k = let rest = remove m k in if str_eq j k then rest else (j, v) ∷ rest

  -- `Array.from(m.values())`
  unfoldable pub values : Dict V → List V
  values [] = []
  values ((k, v) ∷ m) = v ∷ values m

  pub get-set :
      (m : Dict V) (k j : String) (v : V)
      → get (set m k v) j ≡ (if str_eq k j then some v else get m j)
  unfolding get set
  get-set [] k j v = refl
  get-set ((i, w) ∷ m) k j v = ground (arith, eq_iff k j, eq_iff i k, eq_iff i j, get-set m k j v)

  pub set-set : (m : Dict V) (k : String) (v w : V) → set (set m k v) k w ≡ set m k w
  unfolding set
  set-set [] k v w = rw (eq_refl k) refl
  set-set ((j, u) ∷ m) k v w = elim (Bool-cases (str_eq j k)) [
    | inl same ↦ rw same (rw same refl)
    | inr other ↦ rw other (rw (other, set-set m k v w) refl)
  ]

  pub get-remove :
      (m : Dict V) (k j : String) → get (remove m k) j ≡ (if str_eq k j then none else get m j)
  unfolding get remove
  get-remove [] k j = ground arith
  get-remove ((i, w) ∷ m) k j = ground (arith, eq_iff k j, eq_iff i k, eq_iff i j, get-remove m k j)

  pub remove-set : (m : Dict V) (k : String) (v : V) → remove (set m k v) k ≡ remove m k
  unfolding remove set
  remove-set [] k v = rw (eq_refl k) refl
  remove-set ((j, w) ∷ m) k v = elim (Bool-cases (str_eq j k)) [
    | inl same ↦ rw same (rw same refl)
    | inr other ↦ rw other (rw (other, remove-set m k v) refl)
  ]

  pub remove-remove : (m : Dict V) (k : String) → remove (remove m k) k ≡ remove m k
  unfolding remove
  remove-remove [] k = refl
  remove-remove ((j, w) ∷ m) k = elim (Bool-cases (str_eq j k)) [
    | inl same ↦ rw same (remove-remove m k)
    | inr other ↦ rw other (rw (other, remove-remove m k) refl)
  ]

  -- No key stands twice.
  abbrev pub Unique : Dict V → Type ℓ
  Unique [] = Unit
  Unique ((k, v) ∷ m) = (get m k ≡ none) × Unique m

  pub set-Unique : (m : Dict V) (k : String) (v : V) → Unique m → Unique (set m k v)
  unfolding set get
  set-Unique [] k v u = (refl, tt)
  set-Unique ((j, w) ∷ m) k v u = elim (Bool-cases (str_eq j k)) [
    | inl same ↦ rw same u
    | inr other ↦ rw other (rw (get-set m k j v) (rw (flipped other) u.0), set-Unique m k v u.1)
  ]
    where
      flipped : str_eq j k ≡ false → str_eq k j ≡ false
      flipped h = ground (arith, eq_iff j k, eq_iff k j)

  pub remove-Unique : (m : Dict V) (k : String) → Unique m → Unique (remove m k)
  unfolding remove
  remove-Unique [] k u = tt
  remove-Unique ((j, v) ∷ m) k u = elim (Bool-cases (str_eq j k)) [
    | inl same ↦ rw same (remove-Unique m k u.1)
    | inr other ↦ rw other (rw (get-remove m k j) (ground (arith, u.0)), remove-Unique m k u.1)
  ]

  -- The values that a test of their names finds
  abbrev pub find_named : (V → String) → String → List V → Option V
  find_named name k = find (λ v. str_eq (name v) k)

  -- No two values have one name.
  abbrev pub DistinctNames : (V → String) → List V → Type ℓ
  DistinctNames name [] = Unit
  DistinctNames name (v ∷ vs) = (find_named name (name v) vs ≡ none) × DistinctNames name vs

  abbrev pub IsNamed : (V → String) → String × V → Type 0
  IsNamed name e = name e.1 ≡ e.0

  pub find_named-values :
      (name : V → String) (m : Dict V) (k : String)
      → All (IsNamed name) m
      → find_named name k (values m) ≡ get m k
  unfolding get values
  find_named-values name [] k h = refl
  find_named-values name ((j, v) ∷ m) k h = rw (h.0, find_named-values name m k h.1)

  pub values-DistinctNames :
      (name : V → String) (m : Dict V)
      → All (IsNamed name) m
      → Unique m
      → DistinctNames name (values m)
  unfolding values
  values-DistinctNames name [] h u = tt
  values-DistinctNames name ((j, v) ∷ m) h u =
      (find_named-values name m (name v) h.1 ∙ (rw h.0 u.0), values-DistinctNames name m h.1 u.1)

module _ {ℓ κ} {V : Type ℓ} (P : String × V → Type κ) where
  pub get-All : (m : Dict V) (k : String) (v : V) → All P m → get m k ≡ some v → P (k, v)
  unfolding get
  get-All [] k v h e = cc
  get-All ((j, w) ∷ m) k v h e = elim (Bool-cases (str_eq j k)) [
    | inl same ↦ subst P (ground (arith, eq_iff j k)) h.0
    | inr other ↦ get-All m k v h.1 (rw other at e)
  ]

  pub set-All : (m : Dict V) (k : String) (v : V) → All P m → P (k, v) → All P (set m k v)
  unfolding set
  set-All [] k v h p = (p, tt)
  set-All ((j, w) ∷ m) k v h p = elim (Bool-cases (str_eq j k)) [
    | inl same ↦ rw (same, (eq_iff j k).0 same) (p, h.1)
    | inr other ↦ rw other (h.0, set-All m k v h.1 p)
  ]

  pub remove-All : (m : Dict V) (k : String) → All P m → All P (remove m k)
  unfolding remove
  remove-All [] k h = tt
  remove-All ((j, w) ∷ m) k h = elim (Bool-cases (str_eq j k)) [
    | inl same ↦ rw same (remove-All m k h.1)
    | inr other ↦ rw other (h.0, remove-All m k h.1)
  ]

  pub All-values_of :
      {Q : V → Type κ} (m : Dict V)
      → ((k : String) (v : V) → P (k, v) → Q v)
      → All P m
      → All Q (values m)
  unfolding values
  All-values_of [] f h = tt
  All-values_of ((k, v) ∷ m) f h = (f k v h.0, All-values_of m f h.1)

-- Texts with a common prefix are equal where the rests are.
pub prefixed-eq : (prefix j k : String) → str_eq (append prefix j) (append prefix k) ≡ str_eq j k
prefixed-eq prefix j k = elim (Bool-cases (str_eq j k)) [
  | inl same ↦ rw (same, (eq_iff j k).0 same) (eq_refl (append prefix k))
  | inr other ↦ elim (Bool-cases (str_eq (append prefix j) (append prefix k))) [
    | inl both ↦
        let p : j ≡ k = append_cancel_left prefix j k ((eq_iff _ _).0 both) in
        ground (arith, eq_iff j k, p)
    | inr differ ↦ rw (differ, other) refl
  ]
]

-- The loop `for (const [k, b] of m)` that pushes what `finding` makes of an entry and goes on to the
-- next entry where that is nothing
module _ {ℓ κ} {B : Type ℓ} {R : Type κ} (finding : String → B → Option R) where
  unfoldable pub collect : Dict B → List R
  collect [] = []
  collect ((k, b) ∷ m) = elim (finding k b) [ none ↦ collect m | some r ↦ r ∷ collect m ]

  abbrev pub at_entry : String → Option B → Option R
  at_entry k none = none
  at_entry k (some b) = finding k b

  -- Findings named by their keys behind a prefix are found by that name.
  module _ (name : R → String) (prefix : String)
      (named : (k : String) (b : B) (r : R) → finding k b ≡ some r → name r ≡ append prefix k) where
    found_at :
        (m : Dict B) (k j : String) (b : B) (o : Option R)
        → finding j b ≡ o
        → get m j ≡ none
        → find_named name (append prefix k) (collect m) ≡ at_entry k (get m k)
        → find_named name (append prefix k) (elim o [ none ↦ collect m | some r ↦ r ∷ collect m ])
          ≡ at_entry k (if str_eq j k then some b else get m k)
    found_at m k j b none e absent ih = elim (Bool-cases (str_eq j k)) [
      | inl same ↦ let p : j ≡ k = (eq_iff j k).0 same in rw (same, ih, ← p, absent, e) refl
      | inr other ↦ rw other ih
    ]
    found_at m k j b (some r) e absent ih =
        rw (named j b r e, prefixed-eq prefix j k)
          (elim (Bool-cases (str_eq j k)) [
            | inl same ↦ rw (same, ← (eq_iff j k).0 same, e) refl
            | inr other ↦ rw other ih
          ])

    pub find_named-collect :
        (m : Dict B) (k : String)
        → Unique m
        → find_named name (append prefix k) (collect m) ≡ at_entry k (get m k)
    unfolding collect get
    find_named-collect [] k u = refl
    find_named-collect ((j, b) ∷ m) k u =
        found_at m k j b (finding j b) refl u.0 (find_named-collect m k u.1)
