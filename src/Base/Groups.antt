-- ===== src/Base/Groups.antt =====
-- The loop that most detectors share: rows are collected in a `Map` under a key of their own, and a
-- row without a key is skipped by `continue`.
use Prim.Native.String.{String, ◌++◌ as append}
use mathlib.Core.Path.{◌≡◌, refl, ◌∙◌, ap}
use mathlib.Core.Bool.{Bool, true, false}
use mathlib.Core.Option.{Option, none, some}
use mathlib.Core.List.{List, [], ◌∷◌}
use native.Mathlib.Omega.{arith}
use text.Mathlib.Text.{◌==◌ as str_eq}
use text.Mathlib.TextEquality.{eq_iff}
use zero_proof.Base.Tests.{if◌then◌else◌, Bool-cases}
use zero_proof.Base.Lists.{keep, All, any}
use mathlib.Core.Logic.{◌⊎◌, inl, inr}
use zero_proof.Base.Dict.{
  Dict, get, set, get-set, Unique, set-Unique, set-All, get-All, values, IsNamed, find_named,
  DistinctNames, find_named-values, values-DistinctNames, collect, at_entry, find_named-collect,
}

-- Whether a row's key is `k`
abbrev pub is_key : String → Option String → Bool
is_key k none = false
is_key k (some j) = str_eq j k

module _ {ℓ κ} {A : Type ℓ} {V : Type κ} (key : A → Option String) (grow : Option V → A → V) where
  -- One round of the loop
  put_under : Option String → Dict V → A → Dict V
  put_under none d x = d
  put_under (some k) d x = set d k (grow (get d k) x)

  unfoldable pub group : Dict V → List A → Dict V
  unfolding put_under
  group d [] = d
  group d (x ∷ xs) = group (put_under (key x) d x) xs

  -- What a sequence of rows under one key makes of its entry
  abbrev pub absorb : Option V → List A → Option V
  absorb o [] = o
  absorb o (x ∷ xs) = absorb (some (grow o x)) xs

  get-put_under :
      (o : Option String) (d : Dict V) (x : A) (k : String)
      → get (put_under o d x) k ≡ (if is_key k o then some (grow (get d k) x) else get d k)
  unfolding put_under
  get-put_under none d x k = refl
  get-put_under (some j) d x k = ground (arith, get-set d j k (grow (get d j) x), eq_iff j k)

  -- The entry under a key is made of the rows with that key, in their order, and of no others.
  pub get-group :
      (d : Dict V) (xs : List A) (k : String)
      → get (group d xs) k ≡ absorb (get d k) (keep (λ x. is_key k (key x)) xs)
  unfolding group
  get-group d [] k = refl
  get-group d (x ∷ xs) k =
      let d' = put_under (key x) d x in
      get-group d' xs k ∙ (rw (get-put_under (key x) d x k) (split (is_key k (key x))))
    where
      later : List A
      later = keep (λ y. is_key k (key y)) xs

      split :
          (b : Bool)
          → absorb (if b then some (grow (get d k) x) else get d k) later
            ≡ absorb (get d k) (if b then x ∷ later else later)
      split true = refl
      split false = refl

  put_under-Unique : (o : Option String) (d : Dict V) (x : A) → Unique d → Unique (put_under o d x)
  unfolding put_under
  put_under-Unique none d x u = u
  put_under-Unique (some k) d x u = set-Unique d k _ u

  pub group-Unique : (d : Dict V) (xs : List A) → Unique d → Unique (group d xs)
  unfolding group
  group-Unique d [] u = u
  group-Unique d (x ∷ xs) u =
      group-Unique (put_under (key x) d x) xs (put_under-Unique (key x) d x u)

  -- What `grow` keeps of a new entry and of one that is there holds of every entry.
  module _ {μ} (P : String × V → Type μ)
      (fresh : (x : A) (k : String) → key x ≡ some k → P (k, grow none x))
      (again : (x : A) (k : String) (v : V)
        → key x ≡ some k
        → P (k, v)
        → P (k, grow (some v) x)) where
    grow-P :
        (d : Dict V) (x : A) (k : String) (o : Option V)
        → key x ≡ some k
        → ((v : V) → o ≡ some v → P (k, v))
        → P (k, grow o x)
    grow-P d x k none e h = fresh x k e
    grow-P d x k (some v) e h = again x k v e (h v refl)

    put_under-All :
        (o : Option String) (d : Dict V) (x : A) → key x ≡ o → All P d → All P (put_under o d x)
    unfolding put_under
    put_under-All none d x e h = h
    put_under-All (some k) d x e h =
        set-All P d k _ h (grow-P d x k (get d k) e (λ v g. get-All P d k v h g))

    pub group-All : (d : Dict V) (xs : List A) → All P d → All P (group d xs)
    unfolding group
    group-All d [] h = h
    group-All d (x ∷ xs) h = group-All (put_under (key x) d x) xs (put_under-All (key x) d x refl h)

-- Entries that carry their key as a name: the values read by name are the entries.
module _ {ℓ κ} {A : Type ℓ} {V : Type κ} (key : A → Option String) (grow : Option V → A → V)
    (name : V → String)
    (grow_name : (o : Option V) (x : A) (k : String)
      → key x ≡ some k
      → ((v : V) → o ≡ some v → name v ≡ k)
      → name (grow o x) ≡ k) where
  group-IsNamed : (xs : List A) → All (IsNamed name) (group key grow [] xs)
  group-IsNamed xs =
      group-All key grow (IsNamed name) (λ x k e. grow_name none x k e (λ v q. cc))
        (λ x k v e h. grow_name (some v) x k e (λ w q. cc)) [] xs tt

  pub find_named-group :
      (xs : List A) (k : String)
      → find_named name k (values (group key grow [] xs))
        ≡ absorb key grow none (keep (λ x. is_key k (key x)) xs)
  unfolding get
  find_named-group xs k = find_named-values name _ k (group-IsNamed xs) ∙ get-group key grow [] xs k

  pub group-DistinctNames : (xs : List A) → DistinctNames name (values (group key grow [] xs))
  group-DistinctNames xs =
      values-DistinctNames name _ (group-IsNamed xs) (group-Unique key grow [] xs tt)

-- Rows collected under their keys, and then a finding for each key that calls for one.
module _ {ℓ κ μ} {A : Type ℓ} {B : Type κ} {R : Type μ} (key : A → Option String)
    (grow : Option B → A → B) (finding : String → B → Option R) (name : R → String)
    (prefix : String)
    (named : (k : String) (b : B) (r : R) → finding k b ≡ some r → name r ≡ append prefix k) where
  pub find_named-collect-group :
      (xs : List A) (k : String)
      → find_named name (append prefix k) (collect finding (group key grow [] xs))
        ≡ at_entry finding k (absorb key grow none (keep (λ x. is_key k (key x)) xs))
  unfolding get
  find_named-collect-group xs k =
      find_named-collect finding name prefix named _ k (group-Unique key grow [] xs tt)
      ∙ ap (at_entry finding k) (get-group key grow [] xs k)

-- A loop that sets and never reads: the last row under a key decides.
module _ {ℓ κ} {A : Type ℓ} {V : Type κ} (key : A → Option String) (value : A → V) where
  abbrev pub last_value : Option V → List A → Option V
  last_value o [] = o
  last_value o (x ∷ xs) = last_value (some (value x)) xs

  pub get-group_last :
      (xs : List A) (k : String)
      → get (group key (λ o x. value x) [] xs) k ≡ last_value none (keep (λ x. is_key k (key x)) xs)
  unfolding get
  get-group_last xs k =
      get-group key (λ o x. value x) [] xs k ∙ same none (keep (λ x. is_key k (key x)) xs)
    where
      same : (o : Option V) (ys : List A) → absorb key (λ p x. value x) o ys ≡ last_value o ys
      same o [] = refl
      same o (y ∷ ys) = same (some (value y)) ys

  -- Where all rows with a key have one value, and there is such a row, the last has it.
  pub last_value-only :
      (k : String) (v : V) (o : Option V) (xs : List A)
      → All (λ x. is_key k (key x) ≡ true → value x ≡ v) xs
      → (o ≡ some v) ⊎ (any (λ x. is_key k (key x)) xs ≡ true)
      → last_value o (keep (λ x. is_key k (key x)) xs) ≡ some v
  last_value-only k v o [] h (inl e) = e
  last_value-only k v o [] h (inr e) = cc
  last_value-only k v o (x ∷ xs) h s = elim (Bool-cases (is_key k (key x))) [
    | inl own ↦ rw own (last_value-only k v (some (value x)) xs h.1 (inl (ap some (h.0 own))))
    | inr other ↦ rw other (last_value-only k v o xs h.1 (later s other))
  ]
    where
      later :
          (o ≡ some v) ⊎ (any (λ y. is_key k (key y)) (x ∷ xs) ≡ true)
          → is_key k (key x) ≡ false
          → (o ≡ some v) ⊎ (any (λ y. is_key k (key y)) xs ≡ true)
      later (inl e) other = inl e
      later (inr e) other = inr (rw other at e)
