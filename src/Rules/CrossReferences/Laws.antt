-- ===== src/Rules/CrossReferences/Laws.antt =====
-- The two fields that the coverage of the L3 ACL writes.
use zero_proof.Base.{
  String, ◌≡◌, refl, ap, ◌∙◌, inl, inr, Bool, true, false, not, ◌||◌, Option, none, some, List, [],
  ◌∷◌, ◌++◌, arith, Bool-cases, keep, all, is_nil,
}
use zero_proof.Rules.Value.{Fields, field_at, bool, arr}
use zero_proof.Rules.Targets.{set_field, Config, text_field}
use zero_proof.Rules.Targets.Laws.{field_at-set_field}
use zero_proof.Rules.CrossReferences.{
  marking_by, marking, trusted_pattern, marked, names_of, is_trusted, acl_of, id_of,
}
use zero_proof.Topology.{L3AclIsolation}
use zero_proof.Topology.Pairs.{blocked_by_acl}
use zero_proof.Rules.Conditions.{Regex}
use zero_proof.Rules.CrossReferences.{prepare, prepare_by, ready}
use zero_proof.Rules.Filters.{get_target_items}
use zero_proof.Rules.Value.{no_fields}
use zero_proof.Rules.Rule.{RuleDetection}
use zero_proof.Rules.Rule.{CrossReference}
use zero_proof.Topology.Pairs.Isolation.{acl_lists, blocked_by_acl-lists}

-- What is missing of the trusted networks is nothing where they are all blocked.
nothing_missing :
    (acl : List L3AclIsolation) (id : String) (trusted : List Fields)
    → is_nil (keep (λ t. not (blocked_by_acl acl id (id_of t))) trusted)
      ≡ all (λ t. acl_lists acl id (id_of t)) trusted
nothing_missing acl id [] = refl
nothing_missing acl id (t ∷ ts) =
    rw (blocked_by_acl-lists acl id (id_of t)) (elim (Bool-cases (acl_lists acl id (id_of t))) [
      | inl blocked ↦ rw blocked (nothing_missing acl id ts)
      | inr reached ↦ rw reached refl
    ])

nil_covers : (p : Fields → Bool) (ts : List Fields) → (is_nil ts || all p ts) ≡ all p ts
nil_covers p [] = refl
nil_covers p (t ∷ ts) = refl

-- A network is covered where its ACL blocks every trusted network.
pub marked-covers :
    (acl : List L3AclIsolation) (trusted : List Fields) (n : Fields)
    → field_at (marked acl trusted n) "has_l3_acl_blocks"
      ≡ bool (all (λ t. acl_lists acl (id_of n) (id_of t)) trusted)
unfolding marked
marked-covers acl trusted n =
    let missing = keep (λ t. not (blocked_by_acl acl (id_of n) (id_of t))) trusted in
    field_at-set_field (set_field n "missing_l3_acl_blocks" (arr (names_of missing)))
      "has_l3_acl_blocks" "has_l3_acl_blocks" (bool (is_nil trusted || is_nil missing))
    ∙ ap bool (
        ap (λ b. is_nil trusted || b) (nothing_missing acl (id_of n) trusted)
        ∙ nil_covers (λ t. acl_lists acl (id_of n) (id_of t)) trusted)

keep_at :
    (p : Fields → Bool) (q : Fields → Bool) (before after : List Fields) (n : Fields)
    → p n ≡ true
    → all q (keep p (before ++ n ∷ after)) ≡ true
    → q n ≡ true
keep_at p q [] after n h k = ground (arith, h, k)
keep_at p q (m ∷ before) after n h k = elim (Bool-cases (p m)) [
  | inl kept ↦
      let later : all q (keep p (before ++ n ∷ after)) ≡ true = ground (arith, (rw kept at k)) in
      keep_at p q before after n h later
  | inr left ↦ keep_at p q before after n h (rw left at k)
]

or_true : (b : Bool) → (b || true) ≡ true
or_true true = refl
or_true false = refl

is_trusted-corporate :
    (pattern : Option (String → Bool)) (n : Fields)
    → text_field n "purpose" ≡ some "corporate"
    → is_trusted pattern n ≡ true
unfolding is_trusted
is_trusted-corporate pattern n h = rw h (or_true _)

marking_by-corporate :
    (c : Config) (o : Option (Option (String → Bool))) (mark : Fields → Fields)
    → marking_by c o ≡ some mark
    → (before after : List Fields) (n : Fields) → c.networks ≡ before ++ n ∷ after
    → text_field n "purpose" ≡ some "corporate"
    → field_at (mark n) "has_l3_acl_blocks" ≡ bool true
    → acl_lists (acl_of c) (id_of n) (id_of n) ≡ true
unfolding marking_by acl_of
marking_by-corporate c none mark e before after n at_n purpose covered = cc
marking_by-corporate c (some pattern) mark e before after n at_n purpose covered =
    let trusted = keep (is_trusted pattern) c.networks in
    let same : (some (marked (acl_of c) trusted)) ≡ some mark = e in
    let covers = marked-covers (acl_of c) trusted n in
    let every : all (λ t. acl_lists (acl_of c) (id_of n) (id_of t)) trusted ≡ true = cc in
    keep_at (is_trusted pattern) (λ t. acl_lists (acl_of c) (id_of n) (id_of t)) before after n
      (is_trusted-corporate pattern n purpose) (rw at_n at every)

-- A network with the purpose `corporate` is covered only if the ACL blocks it from itself.
pub marking-corporate :
    (regex : Regex) (x : CrossReference) (c : Config) (mark : Fields → Fields)
    → marking regex x c ≡ some mark
    → (before after : List Fields) (n : Fields) → c.networks ≡ before ++ n ∷ after
    → text_field n "purpose" ≡ some "corporate"
    → field_at (mark n) "has_l3_acl_blocks" ≡ bool true
    → acl_lists (acl_of c) (id_of n) (id_of n) ≡ true
unfolding marking
marking-corporate regex x c = marking_by-corporate c (trusted_pattern regex x)

pub prepare-plain :
    (regex : Regex) (d : RuleDetection) (c : Config)
    → d.cross_reference ≡ none
    → prepare regex d c ≡ ready no_fields (get_target_items regex d.target c d.filter) c
unfolding prepare prepare_by
prepare-plain regex d c h = rw h refl
