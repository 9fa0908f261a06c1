-- ===== src/Rules/Filters.antt =====
-- ruleEngine.ts, getTargetItems: the filter of a rule, an object whose keys are fields of an item or
-- one of the special keys `network_type` and `name_pattern`.
pub mod Meeting
use zero_proof.Base.{
  String, Bool, true, false, not, ◌&&◌, ◌||◌, Option, none, some, List, str_eq, if◌then◌else◌,
  or_else, keep,
}
use zero_proof.Base.Text.{to_lower_case}
use zero_proof.Rules.Value.{
  Value, Fields, str, obj, no_fields, own, field_at, property, strict_eq, text_of,
}
use zero_proof.Rules.Conditions.{
  Regex, Op, equals, not_equals, contains, not_contains, matches, matches_i, one_of, not_in, gt, lt,
  gte, lte, empty, not_empty, empty_array, in_port_list, port_range_exceeds, equals_ref, other,
  Condition, leaf, evaluate_condition,
}
use zero_proof.Rules.Networks.{get_network_type}
use zero_proof.Rules.Targets.{Config, items_of, network_data, text_field}

op_named : String → Op
op_named s =
    if str_eq s "equals"
    then equals
    else if str_eq s "not_equals"
    then not_equals
    else if str_eq s "contains"
    then contains
    else if str_eq s "not_contains"
    then not_contains
    else if str_eq s "matches"
    then matches
    else if str_eq s "matches_i"
    then matches_i
    else if str_eq s "in"
    then one_of
    else if str_eq s "not_in"
    then not_in
    else if str_eq s "gt"
    then gt
    else if str_eq s "lt"
    then lt
    else if str_eq s "gte"
    then gte
    else if str_eq s "lte"
    then lte
    else if str_eq s "empty"
    then empty
    else if str_eq s "not_empty"
    then not_empty
    else if str_eq s "empty_array"
    then empty_array
    else if str_eq s "in_port_list"
    then in_port_list
    else if str_eq s "port_range_exceeds"
    then port_range_exceeds
    else if str_eq s "equals_ref"
    then equals_ref
    else other s

-- `value.op`; one that is no text is no operator either.
op_of : Value → Option Op
op_of (str s) = if str_eq s "" then none else some (op_named s)
op_of v = none

has_own : Fields → String → Bool
has_own no_fields k = false
has_own (own j v fs) k = str_eq j k || has_own fs k

-- `typeof value === 'object' && value !== null && 'op' in value`
pub is_operation : Value → Bool
is_operation (obj fs) = has_own fs "op"
is_operation _ = false

-- The condition that a nested filter stands for
pub filter_condition : String → Value → Condition
filter_condition k v = leaf record {
  path = some k;
  op = op_of (property v "op");
  value = property v "value";
  ref_field = none;
}

network_type_passes : Regex → Fields → Value → Bool
network_type_passes regex item v =
    let actual = str (get_network_type (network_data item)) in
    if is_operation v
    then evaluate_condition regex none (obj (own "network_type" actual no_fields))
        (filter_condition "network_type" v)
    else strict_eq actual v

test_or_fail : Option (String → Bool) → String → Bool
test_or_fail none s = false
test_or_fail (some p) s = p s

name_passes : Regex → Fields → Value → Bool
unfolding test_or_fail
name_passes regex item v =
    test_or_fail (regex (text_of v) true) (to_lower_case (or_else (text_field item "name") ""))

-- A field of the item: a nested filter, or simple equality
pub field_passes : Regex → Fields → String → Value → Bool
field_passes regex item k v =
    if is_operation v
    then evaluate_condition regex none (obj item) (filter_condition k v)
    else strict_eq (field_at item k) v

entry_passes : Regex → String → Fields → String → Value → Bool
entry_passes regex target item k v =
    if str_eq k "network_type"
    then not (str_eq target "networks") || network_type_passes regex item v
    else if str_eq k "name_pattern"
    then name_passes regex item v
    else field_passes regex item k v

pub passes : Regex → String → Fields → Fields → Bool
unfolding entry_passes
passes regex target no_fields item = true
passes regex target (own k v more) item =
    entry_passes regex target item k v && passes regex target more item

pub passes_filter : Regex → String → Option Fields → Fields → Bool
passes_filter regex target none item = true
passes_filter regex target (some filter) item = passes regex target filter item

unfoldable pub get_target_items : Regex → String → Config → Option Fields → List Fields
get_target_items regex target config filter =
    keep (passes_filter regex target filter) (items_of target config)
