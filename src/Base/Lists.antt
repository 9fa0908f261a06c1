-- ===== src/Base/Lists.antt =====
-- Lists measured by native numbers, JavaScript's array methods, and predicates on lists.
use Prim.Native.Nat.{ℕ, zero, suc, ◌+◌, ◌≤◌, min}
use Prim.Native.String.{String}
use text.Mathlib.Text.{◌==◌ as str_eq}
use mathlib.Core.Path.{◌≡◌, refl, ap, sym, ◌∙◌}
use mathlib.Core.Bool.{Bool, true, false, ◌&&◌, ◌||◌}
use mathlib.Core.Logic.{inl, inr}
use mathlib.Core.Option.{Option, none, some}
use mathlib.Core.List.{List, [], ◌∷◌, ◌++◌, map, append_assoc}
use native.Mathlib.Omega.{arith}
use text.Mathlib.TextEquality.{eq_iff}
use zero_proof.Base.Tests.{if◌then◌else◌, ltb, Bool-cases}

module _ {ℓ} {A : Type ℓ} where
  abbrev pub length : List A → ℕ
  length [] = 0
  length (x ∷ xs) = suc (length xs)

  abbrev pub is_nil : List A → Bool
  is_nil [] = true
  is_nil (x ∷ xs) = false

  abbrev pub take : ℕ → List A → List A
  take zero xs = []
  take (suc n) [] = []
  take (suc n) (x ∷ xs) = x ∷ take n xs

  -- `xs.filter(p)`
  abbrev pub keep : (A → Bool) → List A → List A
  keep p [] = []
  keep p (x ∷ xs) = if p x then x ∷ keep p xs else keep p xs

  -- `xs.some(p)`
  abbrev pub any : (A → Bool) → List A → Bool
  any p [] = false
  any p (x ∷ xs) = p x || any p xs

  -- `xs.every(p)`
  abbrev pub all : (A → Bool) → List A → Bool
  all p [] = true
  all p (x ∷ xs) = p x && all p xs

  -- `xs.find(p)`
  abbrev pub find : (A → Bool) → List A → Option A
  find p [] = none
  find p (x ∷ xs) = if p x then some x else find p xs

  pub length-append : (xs ys : List A) → length (xs ++ ys) ≡ length xs + length ys
  length-append [] ys = omega arith
  length-append (x ∷ xs) ys = omega (arith, length-append xs ys)

  pub length-take : (n : ℕ) (xs : List A) → length (take n xs) ≡ min n (length xs)
  length-take zero xs = omega arith
  length-take (suc n) [] = omega arith
  length-take (suc n) (x ∷ xs) = omega (arith, length-take n xs)

pub length-map {ℓ κ} :
    {A : Type ℓ} {B : Type κ} (f : A → B) (xs : List A) → length (map f xs) ≡ length xs
length-map f [] = refl
length-map f (x ∷ xs) = ap suc (length-map f xs)

module _ {ℓ κ} {A : Type ℓ} (P : A → Type κ) where
  abbrev pub All : List A → Type κ
  All [] = Unit
  All (x ∷ xs) = P x × All xs

  pub All-append : (xs ys : List A) → All xs → All ys → All (xs ++ ys)
  All-append [] ys hx hy = hy
  All-append (x ∷ xs) ys (p, hx) hy = (p, All-append xs ys hx hy)

module _ {ℓ} {A : Type ℓ} where
  -- `if (xs.length < n) xs.push(x)`
  abbrev pub push_capped : ℕ → List A → A → List A
  push_capped n xs x = if ltb (length xs) n then xs ++ x ∷ [] else xs

  pub take_all : (n : ℕ) (xs : List A) → length xs ≤ n → take n xs ≡ xs
  take_all zero [] h = refl
  take_all zero (x ∷ xs) h = absurd (omega arith)
  take_all (suc n) [] h = refl
  take_all (suc n) (x ∷ xs) h = ap (λ ys. x ∷ ys) (take_all n xs (omega arith))

  take-append_full : (n : ℕ) (xs ys : List A) → length xs ≡ n → take n (xs ++ ys) ≡ xs
  take-append_full zero [] ys h = refl
  take-append_full zero (x ∷ xs) ys h = absurd (omega arith)
  take-append_full (suc n) [] ys h = absurd (omega arith)
  take-append_full (suc n) (x ∷ xs) ys h =
      ap (λ zs. x ∷ zs) (take-append_full n xs ys (omega arith))

  pub take-push_capped :
      (n : ℕ) (xs : List A) (x : A) (ys : List A)
      → length xs ≤ n
      → take n (push_capped n xs x ++ ys) ≡ take n (xs ++ x ∷ ys)
  take-push_capped n xs x ys h = elim (Bool-cases (ltb (length xs) n)) [
    | inl room ↦ rw room (ap (take n) (append_assoc xs (x ∷ []) ys))
    | inr full ↦
        let e : length xs ≡ n = ground arith in
        rw full (take-append_full n xs ys e ∙ sym (take-append_full n xs (x ∷ ys) e))
  ]

  pub length-push_capped :
      (n : ℕ) (xs : List A) (x : A) → length xs ≤ n → length (push_capped n xs x) ≤ n
  length-push_capped n xs x h = ground (arith, length-append xs (x ∷ []))

-- What two nested loops visit
abbrev pub concat_map {ℓ κ} : {A : Type ℓ} {B : Type κ} → (A → List B) → List A → List B
concat_map f [] = []
concat_map f (x ∷ xs) = f x ++ concat_map f xs

-- JavaScript's `Set` of texts, as its members in the order of their insertion
abbrev pub has : List String → String → Bool
has xs s = any (λ x. str_eq x s) xs

abbrev pub include : List String → String → List String
include xs s = if has xs s then xs else xs ++ s ∷ []

abbrev pub include_all : List String → List String → List String
include_all xs [] = xs
include_all xs (s ∷ ss) = include_all (include xs s) ss

pub any-append :
    (f : String → Bool) (xs ys : List String) → any f (xs ++ ys) ≡ (any f xs || any f ys)
any-append f [] ys = refl
any-append f (x ∷ xs) ys = ground (arith, any-append f xs ys)

any-has :
    (f : String → Bool) (xs : List String) (x : String)
    → has xs x ≡ true
    → f x ≡ true
    → any f xs ≡ true
any-has f [] x h e = cc
any-has f (y ∷ ys) x h e = elim (Bool-cases (str_eq y x)) [
  | inl same ↦ rw ((eq_iff y x).0 same) (rw e refl)
  | inr other ↦ let later = any-has f ys x (rw other at h) e in ground arith
]

-- A set has what it had and what is added.
pub any-include :
    (f : String → Bool) (xs : List String) (x : String) → any f (include xs x) ≡ (any f xs || f x)
any-include f xs x = elim (Bool-cases (has xs x)) [
  | inl there ↦ rw there (ground (arith, any-has f xs x there))
  | inr missing ↦ rw missing (ground (arith, any-append f xs (x ∷ [])))
]

pub any-include_all :
    (f : String → Bool) (xs ys : List String) → any f (include_all xs ys) ≡ (any f xs || any f ys)
any-include_all f xs [] = ground arith
any-include_all f xs (y ∷ ys) =
    ground (arith, any-include_all f (include xs y) ys, any-include f xs y)
