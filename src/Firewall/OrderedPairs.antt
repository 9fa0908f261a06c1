-- ===== src/Firewall/OrderedPairs.antt =====
-- Sums over the pairs of a list, for findings that a loop over all pairs makes.
use zero_proof.Base.{
  ℕ, ◌+◌, ◌*◌, ◌≡◌, refl, ap, ◌∙◌, inl, inr, Bool, true, false, List, [], ◌∷◌, map, arith,
  Bool-cases, length, keep, all, concat_map, length-append,
}

-- A sum over a list
abbrev pub total {ℓ} : {A : Type ℓ} → (A → ℕ) → List A → ℕ
total f [] = 0
total f (x ∷ xs) = f x + total f xs

abbrev pub as_number : Bool → ℕ
as_number true = 1
as_number false = 0

-- The pairs of a list of which a relation holds, each pair once
abbrev pub count_pairs {ℓ} : {A : Type ℓ} → (A → A → Bool) → List A → ℕ
count_pairs f [] = 0
count_pairs f (x ∷ xs) = total (λ y. as_number (f x y)) xs + count_pairs f xs

total-plus {ℓ} :
    {A : Type ℓ} (f g : A → ℕ) (xs : List A) → total (λ x. f x + g x) xs ≡ total f xs + total g xs
total-plus f g [] = refl
total-plus f g (x ∷ xs) = omega (arith, total-plus f g xs)

total-same {ℓ} :
    {A : Type ℓ} (f g : A → ℕ) (xs : List A) → ((x : A) → f x ≡ g x) → total f xs ≡ total g xs
total-same f g [] h = refl
total-same f g (x ∷ xs) h = omega (arith, h x, total-same f g xs h)

-- A symmetric relation that nothing has to itself holds of twice as many ordered pairs.
total-pairs {ℓ} :
    {A : Type ℓ} (f : A → A → Bool)
    → ((x y : A) → f x y ≡ f y x)
    → ((x : A) → f x x ≡ false)
    → (xs : List A) → total (λ x. total (λ y. as_number (f x y)) xs) xs ≡ 2 * count_pairs f xs
total-pairs f flip none_self [] = refl
total-pairs f flip none_self (x ∷ xs) =
    let row = λ (y : _). total (λ z. as_number (f y z)) xs in
    let split = total-plus (λ y. as_number (f y x)) (λ y. total (λ z. as_number (f y z)) xs) xs in
    let turned =
      total-same (λ y. as_number (f y x)) (λ y. as_number (f x y)) xs
        (λ y. ap as_number (flip y x)) in
    rw (none_self x) (omega (arith, split, turned, total-pairs f flip none_self xs))

length-chosen {ℓ κ} :
    {A : Type ℓ} {B : Type κ} (f : A → Bool) (g : A → B) (xs : List A)
    → length (map g (keep f xs)) ≡ total (λ x. as_number (f x)) xs
length-chosen f g [] = refl
length-chosen f g (x ∷ xs) = elim (Bool-cases (f x)) [
  | inl h ↦ rw h (omega (arith, length-chosen f g xs))
  | inr h ↦ rw h (omega (arith, length-chosen f g xs))
]

length-rows {ℓ κ} :
    {A : Type ℓ} {B : Type κ} (f : A → A → Bool) (g : A → A → B) (all some_of : List A)
    → length (concat_map (λ x. map (g x) (keep (f x) all)) some_of)
      ≡ total (λ x. total (λ y. as_number (f x y)) all) some_of
length-rows f g all [] = refl
length-rows f g all (x ∷ xs) = omega (
  arith,
  length-append (map (g x) (keep (f x) all)) (concat_map (λ x. map (g x) (keep (f x) all)) xs),
  length-chosen (f x) (g x) all,
  length-rows f g all xs,
)

-- One item for each ordered pair of a symmetric relation is two for each pair.
pub length-pairs {ℓ κ} :
    {A : Type ℓ} {B : Type κ} (f : A → A → Bool) (g : A → A → B)
    → ((x y : A) → f x y ≡ f y x)
    → ((x : A) → f x x ≡ false)
    → (xs : List A) → length (concat_map (λ x. map (g x) (keep (f x) xs)) xs) ≡ 2 * count_pairs f xs
length-pairs f g flip none_self xs = length-rows f g xs xs ∙ total-pairs f flip none_self xs
