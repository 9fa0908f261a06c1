-- ===== src/Rules/Filters/Meeting.antt =====
-- Which items a filter lets through, described on its own.
use zero_proof.Base.{
  String, ◌≡◌, refl, inl, inr, Bool, true, false, not, ◌&&◌, ◌||◌, Option, none, some, str_eq,
  eq_iff, if◌then◌else◌, Bool-cases, or_else,
}
use zero_proof.Base.Text.{to_lower_case}
use zero_proof.Rules.Value.{Value, Fields, str, obj, own, no_fields, field_at, text_of, strict_eq}
use zero_proof.Rules.Conditions.{Regex, evaluate_condition}
use zero_proof.Rules.Networks.{get_network_type}
use zero_proof.Rules.Targets.{network_data, text_field}
use zero_proof.Rules.Filters.{
  passes_filter, passes, entry_passes, network_type_passes, name_passes, test_or_fail, field_passes,
  is_operation, filter_condition,
}

abbrev tests : Option (String → Bool) → String → Bool
tests none s = false
tests (some p) s = p s

-- A value in a filter: a condition on the subject's field, or what the field is to be
abbrev agrees : Regex → Fields → String → Value → Bool
agrees regex subject k v =
    if is_operation v
    then evaluate_condition regex none (obj subject) (filter_condition k v)
    else strict_eq (field_at subject k) v

-- Whether an item meets one entry of a filter: a pattern for its name, the type of a network, which
-- is asked of networks only, or one of its fields
abbrev pub meets : Regex → String → Fields → String → Value → Bool
meets regex target item k v =
    if str_eq k "name_pattern"
    then tests (regex (text_of v) true) (to_lower_case (or_else (text_field item "name") ""))
    else if str_eq k "network_type"
    then not (str_eq target "networks")
      || agrees regex (own "network_type" (str (get_network_type (network_data item))) no_fields)
          "network_type" v
    else agrees regex item k v

-- Whether an item meets every entry of a filter
abbrev pub meets_every : Regex → String → Option Fields → Fields → Bool
meets_every regex target none item = true
meets_every regex target (some no_fields) item = true
meets_every regex target (some (own k v more)) item =
    meets regex target item k v && meets_every regex target (some more) item

by_pattern : (o : Option (String → Bool)) (name : String) → test_or_fail o name ≡ tests o name
unfolding test_or_fail
by_pattern none name = refl
by_pattern (some p) name = refl

entry_passes-eq :
    (regex : Regex) (target : String) (item : Fields) (k : String) (v : Value)
    → entry_passes regex target item k v ≡ meets regex target item k v
unfolding entry_passes network_type_passes name_passes field_passes field_at
entry_passes-eq regex target item k v = elim (Bool-cases (str_eq k "network_type")) [
  | inl h ↦ rw (h, (eq_iff k "network_type").0 h) refl
  | inr h ↦ rw h (
      rw (by_pattern (regex (text_of v) true) (to_lower_case (or_else (text_field item "name") "")))
        refl)
]

passes-eq :
    (regex : Regex) (target : String) (filter item : Fields)
    → passes regex target filter item ≡ meets_every regex target (some filter) item
unfolding passes
passes-eq regex target no_fields item = refl
passes-eq regex target (own k v more) item =
    rw (entry_passes-eq regex target item k v, passes-eq regex target more item) refl

-- The filter lets an item through exactly where it meets every entry.
pub passes_filter-eq :
    (regex : Regex) (target : String) (filter : Option Fields) (item : Fields)
    → passes_filter regex target filter item ≡ meets_every regex target filter item
unfolding passes_filter
passes_filter-eq regex target none item = refl
passes_filter-eq regex target (some filter) item = passes-eq regex target filter item
