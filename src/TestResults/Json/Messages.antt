-- ===== src/TestResults/Json/Messages.antt =====
-- buildStructuredResultsJson over several messages of one test.
use zero_proof.Base.{
  String, ◌≡◌, refl, sym, ap, ◌∙◌, inl, inr, false, Option, List, [], ◌∷◌, map, arith, str_eq,
  if◌then◌else◌, Bool-cases, has,
}
use zero_proof.TestResults.Json.{
  copy_field, copy_fields, is_undefined, assigned, build_structured_results_json, newer,
  as_json_object, extract_command_results, extract_evidence, extract_verdicts, array_or, as_array,
}
use zero_proof.Rules.Targets.{set_field}
use zero_proof.Rules.Targets.Laws.{field_at-set_field}
use zero_proof.Rules.Value.{Value, Fields, Items, obj, arr, no_items, element, field_at}

field_at-copy_field :
    (target source : Fields) (j k : String)
    → str_eq j k ≡ false
    → field_at (copy_field target source j) k ≡ field_at target k
unfolding copy_field
field_at-copy_field target source j k apart = go (field_at source j)
  where
    go :
        (v : Value)
        → field_at (if is_undefined v then target else set_field target j v) k ≡ field_at target k
    go v = elim (Bool-cases (is_undefined v)) [
      | inl missing ↦ rw missing refl
      | inr there ↦ rw (there, field_at-set_field target j k v, apart) refl
    ]

field_at-copy_fields :
    (ks : List String) (target source : Fields) (k : String)
    → has ks k ≡ false
    → field_at (copy_fields target source ks) k ≡ field_at target k
unfolding copy_fields
field_at-copy_fields [] target source k h = refl
field_at-copy_fields (j ∷ ks) target source k h =
    field_at-copy_fields ks (copy_field target source j) source k (ground arith)
    ∙ field_at-copy_field target source j k (ground arith)

-- The four lists of a stored object: `results` repeats `commandResults`.
abbrev HasLists : Fields → Items → Items → Items → Type 0
HasLists built results evidence verdicts =
    (field_at built "commandResults" ≡ arr results)
    × (field_at built "results" ≡ arr results)
    × (field_at built "evidence" ≡ arr evidence)
    × (field_at built "verdicts" ≡ arr verdicts)

assigned-HasLists :
    (root metadata transport : Fields) (results evidence verdicts : Items) (version : Value)
    → HasLists
        (assigned root results evidence verdicts metadata transport version)
        results
        evidence
        verdicts
unfolding assigned
assigned-HasLists root metadata transport results evidence verdicts version = (
  simp field_at-set_field,
  simp field_at-set_field,
  simp field_at-set_field,
  simp field_at-set_field,
)

-- What is copied to the root afterwards has other names.
copy_fields-HasLists :
    (fs source : Fields) (results evidence verdicts : Items)
    → HasLists fs results evidence verdicts
    → HasLists
        (copy_fields fs source
          ("topologyMetadata" ∷ "deviceToDeviceMetadata" ∷ "honeypotExclusions" ∷ []))
        results
        evidence
        verdicts
copy_fields-HasLists fs source results evidence verdicts (a, b, c, d) = (
  simp (field_at-copy_fields, a),
  simp (field_at-copy_fields, b),
  simp (field_at-copy_fields, c),
  simp (field_at-copy_fields, d),
)

build-HasLists :
    (existing payload : Value) (transport : Option Fields)
    → let current = as_json_object existing in
      let incoming = as_json_object payload in
      HasLists
        (build_structured_results_json existing payload transport)
        (newer (extract_command_results incoming) (extract_command_results current))
        (newer (extract_evidence incoming) (extract_evidence current))
        (newer (extract_verdicts incoming) (extract_verdicts current))
unfolding build_structured_results_json
build-HasLists existing payload transport =
    copy_fields-HasLists _ _ _ _ _ (assigned-HasLists _ _ _ _ _ _ _)

-- A message of a test: what its device reports, and how it came
pub record Message : Type 0 where
  pub payload : Value
  pub transport : Option Fields

-- What is stored after some messages
pub stored_after : Value → List Message → Value
stored_after existing [] = existing
stored_after existing (m ∷ ms) =
    stored_after (obj (build_structured_results_json existing m.payload m.transport)) ms

-- The last list that is not empty, the given one where all are
pub latest : Items → List Items → Items
latest start [] = start
latest start (no_items ∷ xss) = latest start xss
latest start (element x xs ∷ xss) = latest (element x xs) xss

latest-newer :
    (start xs : Items) (xss : List Items) → latest start (xs ∷ xss) ≡ latest (newer xs start) xss
unfolding latest newer
latest-newer start no_items xss = refl
latest-newer start (element x xs) xss = refl

-- The lists that the next message reads back are those stored.
HasLists-extract :
    (fs : Fields) (results evidence verdicts : Items)
    → HasLists fs results evidence verdicts
    → (extract_command_results fs ≡ results)
      × (extract_evidence fs ≡ evidence)
      × (extract_verdicts fs ≡ verdicts)
unfolding extract_command_results extract_evidence extract_verdicts array_or as_array
HasLists-extract fs results evidence verdicts (a, b, c, d) = (simp a, simp c, simp d)

-- The list that some messages leave: the last one that is not empty
pub latest_in : (Fields → Items) → Value → List Message → Items
latest_in extract start ms =
    latest (extract (as_json_object start)) (map (λ m. extract (as_json_object m.payload)) ms)

latest_in-after :
    (extract : Fields → Items) (start : Value) (m : Message) (ms : List Message) (fs : Fields)
    → extract fs ≡ newer (extract (as_json_object m.payload)) (extract (as_json_object start))
    → latest_in extract start (m ∷ ms) ≡ latest_in extract (obj fs) ms
unfolding latest_in as_json_object
latest_in-after extract start m ms fs e =
    latest-newer (extract (as_json_object start)) (extract (as_json_object m.payload))
      (map (λ m. extract (as_json_object m.payload)) ms)
    ∙ ap (λ xs. latest xs (map (λ m. extract (as_json_object m.payload)) ms)) (sym e)

-- After one or more messages the stored object has, under `commandResults` and under `results` alike,
-- the results of the last message that has any, and so for its evidence and its verdicts; a later
-- message without them, as the one of a truncated transport, loses nothing.
pub stored_after-latest :
    (ms : List Message) (start : Value) (m : Message)
    → let stored = as_json_object (stored_after start (m ∷ ms)) in
      (field_at stored "commandResults" ≡ arr (latest_in extract_command_results start (m ∷ ms)))
      × (field_at stored "results" ≡ arr (latest_in extract_command_results start (m ∷ ms)))
      × (field_at stored "evidence" ≡ arr (latest_in extract_evidence start (m ∷ ms)))
      × (field_at stored "verdicts" ≡ arr (latest_in extract_verdicts start (m ∷ ms)))
unfolding stored_after latest_in latest as_json_object
stored_after-latest [] start m =
    let built = build-HasLists start m.payload m.transport in
    rw
      (
        latest-newer (extract_command_results (as_json_object start))
            (extract_command_results (as_json_object m.payload)) [],
        latest-newer (extract_evidence (as_json_object start))
            (extract_evidence (as_json_object m.payload)) [],
        latest-newer (extract_verdicts (as_json_object start))
            (extract_verdicts (as_json_object m.payload)) [],
      )
      built
stored_after-latest (n ∷ ms) start m =
    let built = build_structured_results_json start m.payload m.transport in
    let read = HasLists-extract built _ _ _ (build-HasLists start m.payload m.transport) in
    rw
      (
        latest_in-after extract_command_results start m (n ∷ ms) built read.0,
        latest_in-after extract_evidence start m (n ∷ ms) built read.1,
        latest_in-after extract_verdicts start m (n ∷ ms) built read.2,
      )
      (stored_after-latest ms (obj built) n)
