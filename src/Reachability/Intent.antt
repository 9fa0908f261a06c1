-- ===== src/Reachability/Intent.antt =====
-- reachabilityPolicyService.ts, computeIntentExpectation: what the intent profile expects of traffic
-- between two categories. Each later rule overwrites what the earlier ones decided.
pub mod Table
use zero_proof.Base.{
  String, Bool, ◌&&◌, ◌||◌, Option, none, some, if◌then◌else◌, or_else, all, find,
}
use zero_proof.Reachability.{
  Category, default, home, work, iot, guest, trusted, nas, server, Expected, allow, block, unknown,
  Profile, ReachabilityOverride, same_category, text_or, deny, allow_all, phased, strict,
  all_networks, trusted_only, specific_vlans, InterVlanDefault, WorkIsolationMode, NasAccess,
}
use zero_proof.Reachability.Categories.{normalize_category}

pub record IntentDecision : Type 0 where
  pub expected : Expected
  pub reason : String

abbrev decision : Expected → String → IntentDecision
decision e r = record { expected = e; reason = r }

pub matches_override : Category → Category → ReachabilityOverride → Bool
matches_override source target o =
    same_category (normalize_category o.source_category) source
    && same_category (normalize_category o.target_category) target

abbrev pub find_override : Profile → Category → Category → Option ReachabilityOverride
find_override p source target = find (matches_override source target) p.reachability_overrides

by_default : InterVlanDefault → IntentDecision
by_default deny = decision block "Inter-VLAN default policy is deny."
by_default allow_all = decision allow "Inter-VLAN default policy is allow."

abbrev pub involves : Category → Category → Category → Bool
involves c source target = same_category source c || same_category target c

by_iot : Profile → Category → Category → IntentDecision → IntentDecision
by_iot p source target d =
    if p.has_iot && p.iot_isolation && involves iot source target
    then decision block "IoT isolation requires blocking traffic to/from IoT."
    else d

by_guest : Profile → Category → Category → IntentDecision → IntentDecision
by_guest p source target d =
    if p.guest_network && p.guest_isolation && involves guest source target
    then decision block "Guest isolation requires blocking traffic to/from Guest."
    else d

abbrev pub other_than_work : Category → Category → Category
other_than_work source target = if same_category source work then target else source

-- The phased mode leaves the decision where the other side is WORK too.
by_phase : Category → IntentDecision → IntentDecision
by_phase iot d = decision block "WORK phased mode blocks Work to/from IoT and Guest."
by_phase guest d = decision block "WORK phased mode blocks Work to/from IoT and Guest."
by_phase work d = d
by_phase _ d = decision allow "WORK phased mode allows Work to/from Trusted, NAS, and Server paths."

by_mode : WorkIsolationMode → Category → IntentDecision → IntentDecision
by_mode strict other d =
    decision block "WORK strict mode blocks Work to/from all non-Work categories."
by_mode phased other d = by_phase other d

by_work : Profile → Category → Category → IntentDecision → IntentDecision
by_work p source target d =
    if p.work_from_home && p.work_device_isolation && involves work source target
    then by_mode (or_else p.work_isolation_mode phased) (other_than_work source target) d
    else d

nas_decision : NasAccess → Category → IntentDecision
nas_decision all_networks source = decision allow "NAS access policy allows all networks."
nas_decision trusted_only source =
    if same_category source trusted || same_category source home
    then decision allow "NAS policy allows trusted/home network access."
    else decision block "NAS policy limits access to trusted/home networks."
nas_decision specific_vlans source =
    decision unknown "NAS policy is specific_vlans and requires explicit override mappings."

by_nas : Profile → Category → Category → IntentDecision → IntentDecision
by_nas p source target d =
    if same_category target nas then nas_decision p.nas_accessible_from source else d

by_rules : Profile → Category → Category → IntentDecision
by_rules p source target =
    if same_category source target
    then decision allow "Same network category path."
    else by_nas p source target (
        by_work p source target
          (by_guest p source target (by_iot p source target (by_default p.inter_vlan_default))))

overridden : Option ReachabilityOverride → IntentDecision → IntentDecision
overridden none d = d
overridden (some o) d = decision o.action (text_or o.reason "Matched explicit policy override.")

-- `computeIntentExpectation`
pub compute_intent_expectation : Category → Category → Option Profile → IntentDecision
unfolding by_default by_iot by_guest by_phase by_mode by_work nas_decision by_nas by_rules
    overridden
compute_intent_expectation source target none = decision unknown "No intent profile configured."
compute_intent_expectation source target (some p) =
    overridden (find_override p source target) (by_rules p source target)
