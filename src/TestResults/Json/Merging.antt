-- ===== src/TestResults/Json/Merging.antt =====
-- mergeJson: what a field of the merged object is, and that a patch applied again changes nothing.
use zero_proof.Base.{
  String, ◌≡◌, refl, ap, ◌∙◌, inl, inr, Bool, true, false, ◌||◌, some, arith, str_eq, eq_iff,
  eq_refl, if◌then◌else◌, Bool-cases, Option-cases,
}
use zero_proof.TestResults.Json.{
  merge_json, merge_fields, merge_test_run_results_json, stored_over, as_json_object,
}
use zero_proof.Rules.Targets.{set_field}
use zero_proof.Rules.Targets.Laws.{set_field_same, field_at-set_field, has_own-set_field}
use zero_proof.Base.Dict.{Dict, get, set, get-set, set-set}
use zero_proof.Rules.Value.{
  Value, Fields, undefined, null, bool, num, str, obj, arr, no_fields, own, field_at, has_own,
}

-- An object, and every object in a field of it, has no name twice.
unfoldable mutual
  pub IsPlain : Value → Type 0
  IsPlain (obj fs) = HasNamesOnce fs
  IsPlain _ = Unit

  pub HasNamesOnce : Fields → Type 0
  HasNamesOnce no_fields = Unit
  HasNamesOnce (own k v fs) = (has_own fs k ≡ false) × (IsPlain v × HasNamesOnce fs)

-- A field of the merged object
abbrev pub merged_field : Fields → Fields → String → Value
merged_field fs ps k =
    if has_own ps k then merge_json (field_at fs k) (field_at ps k) else field_at fs k

-- A field that the patch has is merged with the patch's, every other one stays as it is.
pub field_at-merge_fields :
    (ps fs : Fields) (k : String)
    → HasNamesOnce ps
    → field_at (merge_fields fs ps) k ≡ merged_field fs ps k
unfolding merge_json field_at has_own HasNamesOnce
field_at-merge_fields no_fields fs k h = refl
field_at-merge_fields (own j v ps) fs k (fresh, (plain, later)) =
    let w = merge_json (field_at fs j) v in
    let rest = field_at-merge_fields ps (set_field fs j w) k later in
    elim (Bool-cases (str_eq j k)) [
      | inl same ↦
          let e : j ≡ k = (eq_iff j k).0 same in
          rest ∙ (rw (← e, fresh, eq_refl j, field_at-set_field fs j j w, eq_refl j) refl)
      | inr apart ↦ rest ∙ (rw (field_at-set_field fs j k w, apart) refl)
    ]

pub has_own-merge_fields :
    (ps fs : Fields) (k : String) → has_own (merge_fields fs ps) k ≡ (has_own fs k || has_own ps k)
unfolding merge_json has_own
has_own-merge_fields no_fields fs k = ground arith
has_own-merge_fields (own j v ps) fs k =
    let w = merge_json (field_at fs j) v in
    ground (arith, has_own-merge_fields ps (set_field fs j w) k, has_own-set_field fs j k w)

-- The object has each field of the patch, and merging the patch's value into it changes nothing.
Absorbs : Fields → Fields → Type 0
Absorbs gs ps =
    (k : String)
    → has_own ps k ≡ true
    → (has_own gs k ≡ true) × (merge_json (field_at gs k) (field_at ps k) ≡ field_at gs k)

merge_fields-Absorbs : (gs ps : Fields) → HasNamesOnce ps → Absorbs gs ps → merge_fields gs ps ≡ gs
unfolding merge_json field_at has_own HasNamesOnce Absorbs
merge_fields-Absorbs gs no_fields h a = refl
merge_fields-Absorbs gs (own j v ps) (fresh, (plain, later)) a =
    let found : (if str_eq j j then true else has_own ps j) ≡ true = rw (eq_refl j) refl in
    let here : merge_json (field_at gs j) v ≡ field_at gs j = rw (eq_refl j) at (a j found).1 in
    rw (here, set_field_same gs j (a j found).0)
      (merge_fields-Absorbs gs ps later (λ k there. elim (Bool-cases (str_eq j k)) [
        | inl same ↦ absurd (ground (arith, (eq_iff j k).0 same, fresh, there))
        | inr apart ↦ let both = a k (rw apart there) in (both.0, (rw apart at both.1))
      ]))

-- A value merged with itself
mutual
  unfolding merge_json field_at IsPlain Absorbs

  merge_json_self : (v : Value) → IsPlain v → merge_json v v ≡ v
  merge_json_self undefined h = refl
  merge_json_self null h = refl
  merge_json_self (bool b) h = refl
  merge_json_self (num n) h = refl
  merge_json_self (str s) h = refl
  merge_json_self (obj fs) h =
      ap obj (merge_fields-Absorbs fs fs h (λ k there. (there, merge_fields_self fs k h)))
  merge_json_self (arr xs) h = refl

  merge_fields_self :
      (fs : Fields) (k : String)
      → HasNamesOnce fs
      → merge_json (field_at fs k) (field_at fs k) ≡ field_at fs k
  merge_fields_self no_fields k h = refl
  merge_fields_self (own j v fs) k (fresh, (plain, later)) = elim (Bool-cases (str_eq j k)) [
    | inl same ↦ rw same (merge_json_self v plain)
    | inr apart ↦ rw apart (merge_fields_self fs k later)
  ]

is_object : Value → Bool
is_object (obj fs) = true
is_object _ = false

-- A patch that is no object replaces what is there.
merge_json_other : (base v : Value) → is_object v ≡ false → merge_json base v ≡ v
unfolding merge_json is_object
merge_json_other (obj fs) (obj ps) h = absurd (cc)
merge_json_other (obj fs) v h = refl
merge_json_other base v h = refl

merge_json_replaced :
    (base v : Value) → is_object v ≡ false → merge_json (merge_json base v) v ≡ merge_json base v
merge_json_replaced base v h = rw (merge_json_other base v h) (merge_json_other v v h)

-- A patch without repeated names changes nothing when it is merged again.
mutual
  unfolding merge_json field_at IsPlain Absorbs is_object

  merge_json_twice :
      (v base : Value) → IsPlain v → merge_json (merge_json base v) v ≡ merge_json base v
  merge_json_twice (obj ps) (obj fs) h = ap obj (
      merge_fields-Absorbs (merge_fields fs ps) ps h (λ k there. (
        rw (has_own-merge_fields ps fs k, there) (ground arith),
        rw (field_at-merge_fields ps fs k h, there) (merge_fields_twice ps k (field_at fs k) h),
      )))
  merge_json_twice (obj ps) base h = merge_json_self (obj ps) h
  merge_json_twice v base h = merge_json_replaced base v refl

  merge_fields_twice :
      (ps : Fields) (k : String) (base : Value)
      → HasNamesOnce ps
      → merge_json (merge_json base (field_at ps k)) (field_at ps k)
        ≡ merge_json base (field_at ps k)
  merge_fields_twice no_fields k base h = merge_json_replaced base undefined refl
  merge_fields_twice (own j v ps) k base (fresh, (plain, later)) = elim (Bool-cases (str_eq j k)) [
    | inl same ↦ rw same (merge_json_twice v base plain)
    | inr apart ↦ rw apart (merge_fields_twice ps k base later)
  ]

merged_again :
    (rows merged : Dict Value) (test_id : String) (patch current : Fields)
    → HasNamesOnce patch
    → set rows test_id (obj (merge_fields current patch)) ≡ merged
    → merge_test_run_results_json merged test_id patch ≡ some merged
unfolding merge_test_run_results_json stored_over as_json_object merge_json IsPlain
merged_again rows merged test_id patch current h e =
    let stored = obj (merge_fields current patch) in
    let found : get merged test_id ≡ some stored =
      rw (← e, get-set rows test_id test_id stored, eq_refl test_id) refl in
    rw
      (found, merge_json_twice (obj patch) (obj current) h, ← e, set-set rows test_id stored stored)
      refl

-- Where a patch without repeated names, at any depth, was merged into the record of a test run, merging
-- it once more stores what is stored, and the first merge touched no other run.
pub merge_test_run_results_json-again :
    (rows merged : Dict Value) (test_id : String) (patch : Fields)
    → HasNamesOnce patch
    → merge_test_run_results_json rows test_id patch ≡ some merged
    → (merge_test_run_results_json merged test_id patch ≡ some merged)
      × ((other : String) → str_eq test_id other ≡ false → get merged other ≡ get rows other)
unfolding merge_test_run_results_json stored_over merge_json
merge_test_run_results_json-again rows merged test_id patch h e =
    elim (Option-cases (get rows test_id)) [
      | inl missing ↦ absurd (let none_is = rw missing at e in cc)
      | inr (existing, found) ↦
          let written : set rows test_id (obj (merge_fields (as_json_object existing) patch))
              ≡ merged =
            let both = rw found at e in cc in
          (
            merged_again rows merged test_id patch (as_json_object existing) h written,
            λ other apart. rw (← written, get-set rows test_id other _, apart) refl,
          )
    ]
