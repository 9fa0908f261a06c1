-- ===== src/Rules/CrossReferences/Kept.antt =====
-- What a rule leaves of the configuration.
use zero_proof.Base.{
  String, ◌≡◌, refl, ap, ◌∙◌, inl, inr, Bool, true, false, not, ◌&&◌, ◌||◌, Option, none, some,
  List, [], ◌∷◌, map, str_eq, if◌then◌else◌, Bool-cases, keep, find, is_nil,
}
use zero_proof.Rules.Value.{Fields, field_at, bool, arr}
use zero_proof.Rules.Targets.{set_field, Config}
use zero_proof.Rules.Targets.Laws.{field_at-set_field}
use zero_proof.Rules.CrossReferences.{
  marking_by, marking, trusted_pattern, marked, names_of, is_trusted, acl_of, id_of, Prepared,
  stopped, ready, mark_networks, from_marking, from_corporate, prepare_with, prepare_by, prepare,
  has_dns,
}
use zero_proof.Rules.Filters.{get_target_items, passes_filter}
use zero_proof.Topology.{L3AclIsolation}
use zero_proof.Topology.Pairs.{blocked_by_acl}
use zero_proof.Rules.Conditions.{Regex}
use zero_proof.Rules.Rule.{CrossReference, RuleDetection}

or_false : (a b : Bool) → (a || b) ≡ false → (a ≡ false) × (b ≡ false)
or_false true b h = cc
or_false false b h = (refl, h)

-- The names of the two fields
abbrev pub is_mark : String → Bool
is_mark k = str_eq "missing_l3_acl_blocks" k || str_eq "has_l3_acl_blocks" k

marked-field :
    (acl : List L3AclIsolation) (trusted : List Fields) (n : Fields) (k : String)
    → is_mark k ≡ false
    → field_at (marked acl trusted n) k ≡ field_at n k
unfolding marked
marked-field acl trusted n k h =
    let (missing_no, has_no) =
      or_false (str_eq "missing_l3_acl_blocks" k) (str_eq "has_l3_acl_blocks" k) h in
    let missing = keep (λ t. not (blocked_by_acl acl (id_of n) (id_of t))) trusted in
    let once = set_field n "missing_l3_acl_blocks" (arr (names_of missing)) in
    rw
      (
        field_at-set_field once "has_l3_acl_blocks" k (bool (is_nil trusted || is_nil missing)),
        has_no,
        field_at-set_field n "missing_l3_acl_blocks" k (arr (names_of missing)),
        missing_no,
      )
      refl

-- One configuration has what another has, but for the two fields of networks.
abbrev pub Kept : String → Config → Config → Type 0
Kept k c c' =
    (c' ≡ record c { networks = c'.networks })
    × (map (λ n. field_at n k) c'.networks ≡ map (λ n. field_at n k) c.networks)

pub Kept-same : (k : String) (c : Config) → Kept k c c
Kept-same k c = (refl, refl)

pub Kept-then : (k : String) (c c' c'' : Config) → Kept k c c' → Kept k c' c'' → Kept k c c''
Kept-then k c c' c'' (e, f) (e', f') =
    let over : Config → Config = λ d. record d { networks = c''.networks } in
    (e' ∙ ap over e, f' ∙ f)

mark_networks-Kept :
    (k : String) (selected : Fields → Bool) (mark : Fields → Fields) (c : Config)
    → ((n : Fields) → field_at (mark n) k ≡ field_at n k)
    → Kept k c (mark_networks selected mark c)
unfolding mark_networks
mark_networks-Kept k selected mark c h = (refl, fields c.networks)
  where
    fields :
        (ns : List Fields)
        → map (λ n. field_at n k) (map (λ n. if selected n then mark n else n) ns)
          ≡ map (λ n. field_at n k) ns
    fields [] = refl
    fields (n ∷ ns) = elim (Bool-cases (selected n)) [
      | inl chosen ↦ rw (chosen, h n) (ap (λ vs. field_at n k ∷ vs) (fields ns))
      | inr other ↦ rw other (ap (λ vs. field_at n k ∷ vs) (fields ns))
    ]

-- What the loop of a rule starts from has kept the configuration.
abbrev pub StartKept : String → Config → Prepared → Type 0
StartKept k c stopped = Unit
StartKept k c (ready context items c') = Kept k c c'

from_marking-Kept :
    (k : String) (selected : Fields → Bool) (items : List Fields) (c : Config)
    (o : Option (Option (String → Bool)))
    → is_mark k ≡ false
    → StartKept k c (from_marking selected items c (marking_by c o))
unfolding from_marking marking_by
from_marking-Kept k selected items c none h = tt
from_marking-Kept k selected items c (some pattern) h =
    mark_networks-Kept k selected (marked (acl_of c) (keep (is_trusted pattern) c.networks)) c
      (λ n. marked-field (acl_of c) (keep (is_trusted pattern) c.networks) n k h)

from_corporate-Kept :
    (k : String) (items : List Fields) (c : Config) (o : Option Fields)
    → StartKept k c (from_corporate items c o)
unfolding from_corporate
from_corporate-Kept k items c none = tt
from_corporate-Kept k items c (some n) = Kept-same k c

prepare_with-Kept :
    (k : String) (regex : Regex) (d : RuleDetection) (x : CrossReference) (c : Config)
    → is_mark k ≡ false
    → StartKept k c (prepare_with regex d x c)
unfolding prepare_with marking
prepare_with-Kept k regex d x c h =
    let items = get_target_items regex d.target c d.filter in
    elim (Bool-cases (str_eq x.kind "find_corporate_network")) [
      | inl p ↦ rw p (from_corporate-Kept k items c (find has_dns c.networks))
      | inr p ↦
          rw p (elim (Bool-cases (str_eq x.kind "l3_acl_coverage" && str_eq d.target "networks")) [
            | inl q ↦ rw q (
                from_marking-Kept k (passes_filter regex d.target d.filter) items c
                  (trusted_pattern regex x) h)
            | inr q ↦ rw q (Kept-same k c)
          ])
    ]

pub prepare-Kept :
    (k : String) (regex : Regex) (d : RuleDetection) (c : Config)
    → is_mark k ≡ false
    → StartKept k c (prepare regex d c)
unfolding prepare prepare_by
prepare-Kept k regex d c h = by_reference d.cross_reference
  where
    by_reference : (o : Option CrossReference) → StartKept k c (prepare_by regex d c o)
    by_reference none = Kept-same k c
    by_reference (some x) = prepare_with-Kept k regex d x c h
