-- ===== src/Rules/Conditions.antt =====
-- ruleEngine.ts, evaluateCondition. The engine of regular expressions is a parameter: it gives the
-- test of a pattern, with or without regard to case, or `none` where the pattern does not compile.
pub mod Laws
use zero_proof.Base.{
  ℕ, ◌+◌, ◌-◌, ◌*◌, String, Bool, true, false, not, ◌&&◌, ◌||◌, Option, none, some, List, [], ◌∷◌,
  str_eq, ltb, leb, if◌then◌else◌, or_else,
}
use zero_proof.Base.Text.{includes, split, trim, is_empty, number}
use Prim.Native.Char.{code}
use zero_proof.Rules.Value.{
  Value, undefined, null, bool, num, str, arr, obj, Items, no_items, element, strict_eq,
  items_include, text_of, number_of, get_field_value,
}

abbrev pub Regex : Type 0
Regex = (pattern : String) (ignore_case : Bool) → Option (String → Bool)

-- `ConditionOperator`; `other` is any text that is none of them.
pub data Op : Type 0 where
  equals not_equals contains not_contains matches matches_i one_of not_in : Op
  gt lt gte lte empty not_empty empty_array in_port_list port_range_exceeds equals_ref : Op
  other : String → Op

pub data Logical : Type 0 where
  all_of any_of negation : Logical
  unknown_operator : String → Logical

pub record Leaf : Type 0 where
  pub path : Option String
  pub op : Option Op
  pub value : Value
  pub ref_field : Option String

-- `ConditionCheck`: with an `operator` the other keys of a leaf are not read.
mutual
  pub data Condition : Type 0 where
    leaf : Leaf → Condition
    logical : Logical → Checks → Check → Condition

  pub data Checks : Type 0 where
    no_checks : Checks
    checks : CheckList → Checks

  pub data CheckList : Type 0 where
    done : CheckList
    also : Condition → CheckList → CheckList

  pub data Check : Type 0 where
    no_check : Check
    check : Condition → Check

-- `fieldValue.includes(…)` on a text or an array, `other` on anything else
contains_or : Bool → Value → Value → Bool
contains_or otherwise (str s) v = includes s (text_of v)
contains_or otherwise (arr xs) v = items_include xs v
contains_or otherwise _ v = otherwise

negated_contains : Value → Value → Bool
negated_contains (str s) v = not (includes s (text_of v))
negated_contains (arr xs) v = not (items_include xs v)
negated_contains _ v = true

test_by : Option (String → Bool) → String → Bool
test_by none s = false
test_by (some p) s = p s

matches_pattern : Regex → Bool → Value → Value → Bool
unfolding test_by
matches_pattern regex ignore_case (str s) v = test_by (regex (text_of v) ignore_case) s
matches_pattern regex ignore_case _ v = false

in_array : Value → Value → Bool
in_array (arr xs) v = items_include xs v
in_array _ v = false

not_in_array : Value → Value → Bool
not_in_array (arr xs) v = not (items_include xs v)
not_in_array _ v = true

-- A comparison with NaN is false.
compare_to : (ℕ → ℕ → Bool) → ℕ → Option ℕ → Bool
compare_to test n none = false
compare_to test n (some m) = test n m

compares : (ℕ → ℕ → Bool) → Value → Value → Bool
unfolding compare_to
compares test (num n) v = compare_to test n (number_of v)
compares test _ v = false

is_empty_value : Value → Bool
is_empty_value null = true
is_empty_value undefined = true
is_empty_value (str s) = str_eq s ""
is_empty_value (arr no_items) = true
is_empty_value _ = false

-- `v !== null && v !== undefined && v !== '' && !(Array.isArray(v) && v.length === 0)`
is_not_empty_value : Value → Bool
is_not_empty_value null = false
is_not_empty_value undefined = false
is_not_empty_value (str s) = not (str_eq s "")
is_not_empty_value (arr no_items) = false
is_not_empty_value _ = true

-- `!Array.isArray(v) || v.length === 0`
is_empty_array : Value → Bool
is_empty_array (arr no_items) = true
is_empty_array (arr (element x xs)) = false
is_empty_array _ = true

-- The leading decimal digits of a text, none where there is no digit
leading_digits : Option ℕ → String → Option ℕ
leading_digits acc String.[] = acc
leading_digits acc (String.◌∷◌ c s) =
    let rest = leading_digits (some (or_else acc 0 * 10 + (code c - 48))) s in
    if leb 48 (code c) && leb (code c) 57 then rest else acc

-- `parseInt(s, 10)` where it is not negative
parse_int : String → Option ℕ
unfolding leading_digits
parse_int s = leading_digits none (trim s)

includes_port : Items → Option ℕ → Bool
includes_port xs none = false
includes_port xs (some port) = items_include xs (num port)

in_ports : Value → Value → Bool
unfolding parse_int includes_port
in_ports (arr xs) v = includes_port xs (parse_int (text_of v))
in_ports _ v = false

exceeds : Option ℕ → Option ℕ → Option ℕ → Bool
exceeds (some start) (some stop) (some most) = ltb (start + most) stop
exceeds _ _ _ = false

-- `const [start, end] = fieldValue.split('-').map(Number)`
range_exceeds : List String → Option ℕ → Bool
unfolding exceeds
range_exceeds (start ∷ stop ∷ rest) most = exceeds (number start) (number stop) most
range_exceeds _ most = false

port_range : Value → Value → Bool
unfolding range_exceeds
port_range (str s) v = includes s "-" && range_exceeds (split b'-' s) (number_of v)
port_range _ v = false

ref_value : Option Value → String → Value
ref_value none path = undefined
ref_value (some context) path = get_field_value context path

equals_reference : Option Value → Option String → Value → Bool
unfolding ref_value
equals_reference context none v = false
equals_reference context (some path) v = not (is_empty path) && strict_eq v (ref_value context path)

-- The `switch` on the operator of a leaf
unfoldable pub apply_op :
    Regex → Option Value → Option String → Op → (field_value compare_value : Value) → Bool
unfolding contains_or negated_contains matches_pattern in_array not_in_array compares is_empty_value
    is_not_empty_value is_empty_array in_ports port_range equals_reference
apply_op regex context ref_field equals v w = strict_eq v w
apply_op regex context ref_field not_equals v w = not (strict_eq v w)
apply_op regex context ref_field contains v w = contains_or false v w
apply_op regex context ref_field not_contains v w = negated_contains v w
apply_op regex context ref_field matches v w = matches_pattern regex false v w
apply_op regex context ref_field matches_i v w = matches_pattern regex true v w
apply_op regex context ref_field one_of v w = in_array w v
apply_op regex context ref_field not_in v w = not_in_array w v
apply_op regex context ref_field gt v w = compares (λ a b. ltb b a) v w
apply_op regex context ref_field lt v w = compares ltb v w
apply_op regex context ref_field gte v w = compares (λ a b. leb b a) v w
apply_op regex context ref_field lte v w = compares leb v w
apply_op regex context ref_field empty v w = is_empty_value v
apply_op regex context ref_field not_empty v w = is_not_empty_value v
apply_op regex context ref_field empty_array v w = is_empty_array v
apply_op regex context ref_field in_port_list v w = in_ports w v
apply_op regex context ref_field port_range_exceeds v w = port_range v w
apply_op regex context ref_field equals_ref v w = equals_reference context ref_field v
apply_op regex context ref_field (other name) v w = false

leaf_at : Regex → Option Value → Value → Leaf → Option String → Option Op → Bool
leaf_at regex context item l none op = false
leaf_at regex context item l (some path) none = false
leaf_at regex context item l (some path) (some op) =
    not (is_empty path) && apply_op regex context l.ref_field op (get_field_value item path) l.value

pub evaluate_leaf : Regex → Option Value → Value → Leaf → Bool
unfolding leaf_at
evaluate_leaf regex context item l = leaf_at regex context item l l.path l.op

-- `evaluateCondition`
unfoldable mutual
  pub evaluate_condition : Regex → Option Value → Value → Condition → Bool
  evaluate_condition regex context item (leaf l) = evaluate_leaf regex context item l
  evaluate_condition regex context item (logical all_of cs c) = every_of regex context item cs
  evaluate_condition regex context item (logical any_of cs c) = some_of regex context item cs
  evaluate_condition regex context item (logical negation cs c) = none_of regex context item c
  evaluate_condition regex context item (logical (unknown_operator name) cs c) = false

  -- `checks?.every(…) ?? false`
  pub every_of : Regex → Option Value → Value → Checks → Bool
  every_of regex context item no_checks = false
  every_of regex context item (checks cs) = every regex context item cs

  -- `checks?.some(…) ?? false`
  pub some_of : Regex → Option Value → Value → Checks → Bool
  some_of regex context item no_checks = false
  some_of regex context item (checks cs) = some_check regex context item cs

  -- `check ? !evaluate(check) : false`
  pub none_of : Regex → Option Value → Value → Check → Bool
  none_of regex context item no_check = false
  none_of regex context item (check c) = not (evaluate_condition regex context item c)

  pub every : Regex → Option Value → Value → CheckList → Bool
  every regex context item done = true
  every regex context item (also c cs) =
      evaluate_condition regex context item c && every regex context item cs

  pub some_check : Regex → Option Value → Value → CheckList → Bool
  some_check regex context item done = false
  some_check regex context item (also c cs) =
      evaluate_condition regex context item c || some_check regex context item cs
