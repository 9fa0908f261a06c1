-- ===== src/Rules/Targets/Laws.antt =====
-- Writing a field of an item.
use zero_proof.Base.{
  String, ◌≡◌, refl, ap, inl, inr, true, ◌||◌, arith, str_eq, eq_iff, if◌then◌else◌, Bool-cases,
}
use zero_proof.Rules.Value.{Value, Fields, no_fields, own, field_at, has_own}
use zero_proof.Rules.Targets.{set_field}

pub field_at-set_field :
    (fs : Fields) (j k : String) (v : Value)
    → field_at (set_field fs j v) k ≡ (if str_eq j k then v else field_at fs k)
unfolding field_at set_field
field_at-set_field no_fields j k v = refl
field_at-set_field (own i w fs) j k v = elim (Bool-cases (str_eq i j)) [
  | inl same ↦ rw same (
      rw (← (eq_iff i j).0 same)
        (elim (Bool-cases (str_eq i k)) [ inl h ↦ rw h refl | inr h ↦ rw h refl ]))
  | inr apart ↦ rw apart (elim (Bool-cases (str_eq i k)) [
    | inl h ↦ rw h (ground (arith, eq_iff i j, eq_iff i k, eq_iff j k))
    | inr h ↦ rw h (field_at-set_field fs j k v)
  ])
]

pub has_own-set_field :
    (fs : Fields) (j k : String) (v : Value)
    → has_own (set_field fs j v) k ≡ (str_eq j k || has_own fs k)
unfolding has_own set_field
has_own-set_field no_fields j k v = ground arith
has_own-set_field (own i w fs) j k v =
    ground (arith, eq_iff i j, eq_iff i k, eq_iff j k, has_own-set_field fs j k v)

-- A field that is written with what it has
pub set_field_same :
    (fs : Fields) (k : String) → has_own fs k ≡ true → set_field fs k (field_at fs k) ≡ fs
unfolding field_at has_own set_field
set_field_same no_fields k h = absurd (cc)
set_field_same (own i w fs) k h = elim (Bool-cases (str_eq i k)) [
  | inl same ↦ rw same refl
  | inr apart ↦ rw apart (ap (own i w) (set_field_same fs k (rw apart at h)))
]
