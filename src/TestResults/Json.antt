-- ===== src/TestResults/Json.antt =====
-- services/testRunResultsJson.ts. An object is its own fields in their order; a spread copies them.
-- JavaScript lists integer-like names first, which the order here leaves out.
pub mod Merging
pub mod Messages
use zero_proof.Rules.Value.{
  Value, Fields, Items, undefined, num, obj, arr, no_fields, own, no_items, field_at,
}
use zero_proof.Base.Dict.{Dict, set, get}
use zero_proof.Rules.Targets.{set_field}
use zero_proof.Base.{
  String, Bool, true, false, Option, none, some, List, [], ◌∷◌, if◌then◌else◌, or_else,
}

unfoldable pub as_json_object : Value → Fields
as_json_object (obj fs) = fs
as_json_object _ = no_fields

as_array : Value → Option Items
as_array (arr xs) = some xs
as_array _ = none

-- `mergeJson`. The loop merges a field of two objects by a call and takes the patch's value otherwise,
-- which is what the call answers there.
unfoldable mutual
  pub merge_json : Value → Value → Value
  merge_json (obj fs) (obj ps) = obj (merge_fields fs ps)
  merge_json _ patch = patch

  pub merge_fields : Fields → Fields → Fields
  merge_fields fs no_fields = fs
  merge_fields fs (own k v ps) = merge_fields (set_field fs k (merge_json (field_at fs k) v)) ps

is_undefined : Value → Bool
is_undefined undefined = true
is_undefined _ = false

-- `if (source[key] !== undefined) target[key] = source[key]`
unfoldable pub copy_field : Fields → Fields → String → Fields
unfolding is_undefined
copy_field target source k =
    if is_undefined (field_at source k) then target else set_field target k (field_at source k)

unfoldable pub copy_fields : Fields → Fields → List String → Fields
copy_fields target source [] = target
copy_fields target source (k ∷ ks) = copy_fields (copy_field target source k) source ks

pub extract_legacy_metadata : Fields → Fields
extract_legacy_metadata payload =
    copy_fields no_fields payload
      ("topologyMetadata" ∷ "deviceToDeviceMetadata" ∷ "honeypotExclusions" ∷ "meshDevices" ∷ [])

array_or : Value → Items → Items
unfolding as_array
array_or v otherwise = or_else (as_array v) otherwise

pub extract_command_results : Fields → Items
unfolding array_or
extract_command_results payload =
    array_or (field_at payload "commandResults") (
      array_or (field_at payload "results")
        (array_or (field_at payload "command_results") no_items))

pub extract_evidence : Fields → Items
unfolding array_or
extract_evidence payload = array_or (field_at payload "evidence") no_items

pub extract_verdicts : Fields → Items
unfolding array_or
extract_verdicts payload = array_or (field_at payload "verdicts") no_items

-- `extract(incoming).length > 0 ? extract(incoming) : extract(current)`
unfoldable pub newer : Items → Items → Items
newer no_items current = current
newer incoming current = incoming

number_or : Value → Value → Value
number_or (num n) otherwise = num n
number_or _ otherwise = otherwise

pub merged_metadata : Fields → Fields → Fields
merged_metadata current incoming =
    merge_fields
      (merge_fields (as_json_object (field_at current "metadata"))
        (extract_legacy_metadata current))
      (merge_fields (as_json_object (field_at incoming "metadata"))
        (extract_legacy_metadata incoming))

pub merged_transport : Fields → Fields → Option Fields → Fields
merged_transport current incoming patch =
    merge_fields (as_json_object (field_at current "transport"))
      (merge_fields (as_json_object (field_at incoming "transport")) (or_else patch no_fields))

pub schema_version : Fields → Fields → Value
unfolding number_or
schema_version current incoming =
    number_or (field_at incoming "schemaVersion")
      (number_or (field_at current "schemaVersion") (num 2))

-- The fields that the function assigns to the merged root, in their order
assigned : Fields → Items → Items → Items → Fields → Fields → Value → Fields
assigned root results evidence verdicts metadata transport version =
    let a = set_field root "metadata" (obj metadata) in
    let b = set_field a "commandResults" (arr results) in
    let c = set_field b "results" (arr results) in
    let d = set_field c "evidence" (arr evidence) in
    let e = set_field d "verdicts" (arr verdicts) in
    let f = set_field e "transport" (obj transport) in set_field f "schemaVersion" version

pub build_structured_results_json : Value → Value → Option Fields → Fields
unfolding assigned
build_structured_results_json existing_results payload transport_patch =
    let current = as_json_object existing_results in
    let incoming = as_json_object payload in
    let metadata = merged_metadata current incoming in
    copy_fields
      (assigned (merge_fields current incoming)
        (newer (extract_command_results incoming) (extract_command_results current))
        (newer (extract_evidence incoming) (extract_evidence current))
        (newer (extract_verdicts incoming) (extract_verdicts current)) metadata
        (merged_transport current incoming transport_patch) (schema_version current incoming))
      metadata ("topologyMetadata" ∷ "deviceToDeviceMetadata" ∷ "honeypotExclusions" ∷ [])

unfoldable pub stored_over : Dict Value → String → Fields → Option Value → Option (Dict Value)
stored_over rows test_id patch none = none
stored_over rows test_id patch (some existing) =
    some (set rows test_id (merge_json (obj (as_json_object existing)) (obj patch)))

-- `mergeTestRunResultsJson` on the `resultsJson` of the test runs; `none` is the error of an update
-- of a run that is not there.
unfoldable pub merge_test_run_results_json : Dict Value → String → Fields → Option (Dict Value)
unfolding stored_over
merge_test_run_results_json rows test_id patch = stored_over rows test_id patch (get rows test_id)
