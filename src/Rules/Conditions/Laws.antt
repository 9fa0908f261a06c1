-- ===== src/Rules/Conditions/Laws.antt =====
-- What conditions mean together: the operators that negate each other, comparisons, and negation of
-- the logical operators.
use zero_proof.Base.{ℕ, String, ◌≡◌, refl, sym, false, not, Option, none, some, arith, ltb, leb}
use zero_proof.Rules.Value.{
  Value, undefined, null, bool, num, str, arr, obj, no_items, element, get_field_value, number_of,
}
use zero_proof.Base.Text.{is_empty}
use zero_proof.Rules.Conditions.{
  CheckList, done, also, no_check, no_checks, check, checks, not_empty, empty, Op, not_in_array,
  Condition, Regex, equals, negated_contains, is_not_empty_value, evaluate_condition, contains_or,
  apply_op, not_equals, leaf, is_empty_value, in_array, evaluate_leaf, contains, not_contains,
  leaf_at, one_of, not_in, empty, not_empty, compares, CheckList, compare_to, logical, also, every,
  some_check, negation, no_checks, gt, lte, check, lt, all_of, gte, checks, no_check, any_of,
}

-- The second operator is the negation of the first.
pub data IsOpposite : Op → Op → Type 0 where
  equality : IsOpposite equals not_equals
  containment : IsOpposite contains not_contains
  membership : IsOpposite one_of not_in
  emptiness : IsOpposite empty not_empty

unfoldable pub leaf_of : String → Op → Value → Condition
leaf_of field_path op' v =
    leaf (record { path = some field_path; op = some op'; value = v; ref_field = none })

contains-complement : (v w : Value) → negated_contains v w ≡ not (contains_or false v w)
unfolding negated_contains contains_or
contains-complement undefined w = refl
contains-complement null w = refl
contains-complement (bool b) w = refl
contains-complement (num n) w = refl
contains-complement (str s) w = refl
contains-complement (arr xs) w = refl
contains-complement (obj fs) w = refl

in-complement : (v w : Value) → not_in_array w v ≡ not (in_array w v)
unfolding not_in_array in_array
in-complement v undefined = refl
in-complement v null = refl
in-complement v (bool b) = refl
in-complement v (num n) = refl
in-complement v (str s) = refl
in-complement v (arr xs) = refl
in-complement v (obj fs) = refl

empty-complement : (v : Value) → is_not_empty_value v ≡ not (is_empty_value v)
unfolding is_not_empty_value is_empty_value
empty-complement undefined = refl
empty-complement null = refl
empty-complement (bool b) = refl
empty-complement (num n) = refl
empty-complement (str s) = refl
empty-complement (arr no_items) = refl
empty-complement (arr (element x xs)) = refl
empty-complement (obj fs) = refl

-- Each check under NOT
pub negated : CheckList → CheckList
negated done = done
negated (also c cs) = also (logical negation no_checks (check c)) (negated cs)

module _ (regex : Regex) (context : Option Value) where
  apply_op-opposite :
      (ref_field : Option String) (o o' : Op) (v w : Value)
      → IsOpposite o o'
      → apply_op regex context ref_field o' v w ≡ not (apply_op regex context ref_field o v w)
  unfolding apply_op
  apply_op-opposite r _ _ v w equality = refl
  apply_op-opposite r _ _ v w containment = contains-complement v w
  apply_op-opposite r _ _ v w membership = in-complement v w
  apply_op-opposite r _ _ v w emptiness = empty-complement v

  -- On a field path that is not empty, `not_equals`, `not_contains`, `not_in` and `not_empty` match
  -- exactly where `equals`, `contains`, `in` and `empty` do not, whatever the item has there.
  pub opposite-operators :
      (o o' : Op) (field_path : String) (item w : Value)
      → IsOpposite o o'
      → is_empty field_path ≡ false
      → evaluate_condition regex context item (leaf_of field_path o' w)
        ≡ not (evaluate_condition regex context item (leaf_of field_path o w))
  unfolding evaluate_condition leaf_of evaluate_leaf leaf_at
  opposite-operators o o' field_path item w h e =
      rw e (apply_op-opposite none o o' (get_field_value item field_path) w h)

  compared : (m n : ℕ) → (ltb n m ≡ not (leb m n)) × (ltb m n ≡ not (leb n m))
  compared m n = (ground arith, ground arith)

  -- Where the item has a number and the value is one, `gt` matches exactly where `lte` does not, and
  -- `lt` exactly where `gte` does not.
  pub comparison-operators :
      (field_path : String) (item w : Value) (m n : ℕ)
      → is_empty field_path ≡ false
      → get_field_value item field_path ≡ num m
      → number_of w ≡ some n
      → (evaluate_condition regex context item (leaf_of field_path gt w)
          ≡ not (evaluate_condition regex context item (leaf_of field_path lte w)))
        × (evaluate_condition regex context item (leaf_of field_path lt w)
            ≡ not (evaluate_condition regex context item (leaf_of field_path gte w)))
  unfolding evaluate_condition leaf_of evaluate_leaf leaf_at apply_op compares compare_to
  comparison-operators field_path item w m n e ef ev = rw e (rw ef (rw ev (compared m n)))

  not-every :
      (item : Value) (cs : CheckList)
      → not (every regex context item cs) ≡ some_check regex context item (negated cs)
  unfolding evaluate_condition negated
  not-every item done = refl
  not-every item (also c cs) = rw (sym (not-every item cs)) (ground arith)

  not-some :
      (item : Value) (cs : CheckList)
      → not (some_check regex context item cs) ≡ every regex context item (negated cs)
  unfolding evaluate_condition negated
  not-some item done = refl
  not-some item (also c cs) = rw (sym (not-some item cs)) (ground arith)

  -- NOT of an AND over a list of checks matches where OR over the negated checks does, and NOT of an
  -- OR where AND over the negated checks does.
  pub negation-checks :
      (item : Value) (cs : CheckList)
      → (evaluate_condition regex context item
            (logical negation no_checks (check (logical all_of (checks cs) no_check)))
          ≡ evaluate_condition regex context item (logical any_of (checks (negated cs)) no_check))
        × (evaluate_condition regex context item
              (logical negation no_checks (check (logical any_of (checks cs) no_check)))
            ≡ evaluate_condition regex context item (logical all_of (checks (negated cs)) no_check))
  unfolding evaluate_condition
  negation-checks item cs = (not-every item cs, not-some item cs)
