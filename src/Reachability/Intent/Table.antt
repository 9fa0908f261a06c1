-- ===== src/Reachability/Intent/Table.antt =====
-- The intent rules by priority: the last rule of the code that applies is the first one here.
use zero_proof.Base.{
  refl, ◌≡◌, ◌&&◌, arith, if◌then◌else◌, or_else, some, ◌≢◌, true, none, Option, ◌∙◌,
}
use zero_proof.Reachability.{
  Category, default, home, work, iot, guest, trusted, nas, server, Expected, allow, block, unknown,
  Profile, same_category, deny, allow_all, phased, strict, all_networks, trusted_only,
  specific_vlans, InterVlanDefault, WorkIsolationMode, NasAccess, ReachabilityOverride,
}
use zero_proof.Reachability.Intent.{
  compute_intent_expectation, by_rules, involves, other_than_work, find_override, overridden,
}

abbrev pub nas_expected : NasAccess → Category → Expected
nas_expected all_networks source = allow
nas_expected specific_vlans source = unknown
nas_expected trusted_only trusted = allow
nas_expected trusted_only home = allow
nas_expected trusted_only _ = block

abbrev pub work_expected : WorkIsolationMode → Category → Expected
work_expected strict other = block
work_expected phased iot = block
work_expected phased guest = block
work_expected phased _ = allow

abbrev pub default_expected : InterVlanDefault → Expected
default_expected deny = block
default_expected allow_all = allow

-- What the rules say where no override applies
abbrev pub expected_by_priority : Profile → Category → Category → Expected
expected_by_priority p source target =
    if same_category source target
    then allow
    else if same_category target nas
    then nas_expected p.nas_accessible_from source
    else if p.work_from_home && p.work_device_isolation && involves work source target
    then work_expected (or_else p.work_isolation_mode phased) (other_than_work source target)
    else if p.guest_network && p.guest_isolation && involves guest source target
    then block
    else if p.has_iot && p.iot_isolation && involves iot source target
    then block
    else default_expected p.inter_vlan_default

rules-expected :
    (p : Profile) (source target : Category)
    → (by_rules p source target).expected ≡ expected_by_priority p source target
unfolding compute_intent_expectation same_category
rules-expected p default default = ground arith
rules-expected p home default = ground arith
rules-expected p work default = ground arith
rules-expected p iot default = ground arith
rules-expected p guest default = ground arith
rules-expected p trusted default = ground arith
rules-expected p nas default = ground arith
rules-expected p server default = ground arith
rules-expected p _ _ = ground arith

-- An override that matches decides; otherwise the first rule of the priority table that applies
-- does: same category, NAS target, WORK isolation, guest isolation, IoT isolation, the default.
pub intent-priority :
    (p : Profile) (source target : Category)
    → (compute_intent_expectation source target (some p)).expected
      ≡ (elim (find_override p source target) [
        | none ↦ expected_by_priority p source target
        | some o ↦ o.action
      ])
unfolding compute_intent_expectation
intent-priority p source target = overridden-expected (find_override p source target)
  where
    overridden-expected :
        (o : Option ReachabilityOverride)
        → (overridden o (by_rules p source target)).expected
          ≡ (elim o [ none ↦ expected_by_priority p source target | some r ↦ r.action ])
    overridden-expected none = rules-expected p source target
    overridden-expected (some r) = refl

-- The profile isolates this category.
abbrev pub IsIsolated : Profile → Category → Type 0
IsIsolated p iot = (p.has_iot ≡ true) × (p.iot_isolation ≡ true)
IsIsolated p guest = (p.guest_network ≡ true) × (p.guest_isolation ≡ true)
IsIsolated p _ = ⊥

table-blocks_out :
    (p : Profile) (c other : Category)
    → IsIsolated p c
    → other ≢ c
    → other ≢ nas
    → expected_by_priority p c other ≡ block
unfolding same_category
table-blocks_out p iot default h ne nn = ground arith
table-blocks_out p guest default h ne nn = ground arith
table-blocks_out p iot _ h ne nn = ground arith
table-blocks_out p guest _ h ne nn = ground arith
table-blocks_out p _ other h ne nn = absurd h

table-blocks_in :
    (p : Profile) (c other : Category)
    → IsIsolated p c
    → other ≢ c
    → expected_by_priority p other c ≡ block
unfolding same_category
table-blocks_in p iot default h ne = ground arith
table-blocks_in p guest default h ne = ground arith
table-blocks_in p iot _ h ne = ground arith
table-blocks_in p guest _ h ne = ground arith
table-blocks_in p _ other h ne = absurd h

-- Without an override, traffic into an isolated category is to be blocked from every other category,
-- and traffic out of it to every other category but NAS, whatever the other settings.
pub isolation-holds :
    (p : Profile) (c other : Category)
    → IsIsolated p c
    → other ≢ c
    → find_override p other c ≡ none
    → find_override p c other ≡ none
    → ((compute_intent_expectation other c (some p)).expected ≡ block)
      × (other ≢ nas → (compute_intent_expectation c other (some p)).expected ≡ block)
isolation-holds p c other h ne no_in no_out = (
  intent-priority p other c ∙ rw no_in (table-blocks_in p c other h ne),
  λ nn. intent-priority p c other ∙ rw no_out (table-blocks_out p c other h ne nn),
)
