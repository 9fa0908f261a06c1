-- ===== src/Rules/CrossReferences.antt =====
-- ruleEngine.ts, executeRule: what a rule looks up before its loop. The coverage of the L3 ACL writes
-- two fields into the networks of the configuration, which the rules after it read.
pub mod Laws
pub mod Kept
use zero_proof.Base.{
  String, Bool, true, false, not, ◌&&◌, ◌||◌, Option, none, some, List, [], ◌∷◌, map, str_eq,
  if◌then◌else◌, or_else, keep, find, is_nil,
}
use zero_proof.Base.Text.{to_lower_case, is_empty}
use zero_proof.Rules.Value.{
  Fields, Items, bool, str, arr, no_fields, own, no_items, element, field_at, truthy,
}
use zero_proof.Rules.Conditions.{Regex}
use zero_proof.Rules.Networks.{is_corporate_network}
use zero_proof.Rules.Targets.{Config, network_data, text_field, set_field, elements}
use zero_proof.Rules.Filters.{get_target_items, passes_filter}
use zero_proof.Rules.Rule.{CrossReference, RuleDetection}
use zero_proof.Topology.{L3AclIsolation}
use zero_proof.Topology.Pairs.{blocked_by_acl}

-- The context of a rule that looks for the corporate network
has_dns : Fields → Bool
has_dns n = is_corporate_network (network_data n) && truthy (field_at n "dhcpd_dns_1")

corporate_context : Fields → Fields
corporate_context n = own "corporate_dns" (field_at n "dhcpd_dns_1") (
    own "corporate_network_id" (field_at n "_id")
      (own "corporate_network_name" (field_at n "name") no_fields))

texts : Items → List String
texts no_items = []
texts (element (str s) xs) = s ∷ texts xs
texts (element _ xs) = texts xs

-- An entry of `config.l3AclIsolation`, whose ids are texts
acl_entry : Fields → L3AclIsolation
acl_entry e = record {
  source_network = or_else (text_field e "source_network") "";
  destination_networks = texts (elements (field_at e "destination_networks"));
}

unfoldable pub id_of : Fields → String
id_of n = or_else (text_field n "_id") ""

unfoldable pub acl_of : Config → List L3AclIsolation
unfolding texts acl_entry
acl_of c = map acl_entry c.l3_acl_isolation

unfoldable pub is_trusted : Option (String → Bool) → Fields → Bool
is_trusted pattern n =
    (elim pattern [
      | none ↦ false
      | some test ↦ test (to_lower_case (or_else (text_field n "name") ""))
    ])
    || str_eq (or_else (text_field n "purpose") "") "corporate"

names_of : List Fields → Items
names_of [] = no_items
names_of (n ∷ ns) = element (field_at n "name") (names_of ns)

-- The two fields that a network gets, by the trusted networks and the ACL
pub marked : List L3AclIsolation → List Fields → Fields → Fields
marked acl trusted n =
    let missing = keep (λ t. not (blocked_by_acl acl (id_of n) (id_of t))) trusted in
    set_field (set_field n "missing_l3_acl_blocks" (arr (names_of missing))) "has_l3_acl_blocks"
      (bool (is_nil trusted || is_nil missing))

-- The pattern of trusted names: `none` is an error, `some none` is no pattern
trusted_pattern : Regex → CrossReference → Option (Option (String → Bool))
trusted_pattern regex x = elim x.name_pattern [
  | none ↦ some none
  | some p ↦
      if is_empty p
      then some none
      else elim (regex p true) [ none ↦ none | some test ↦ some (some test) ]
]

-- What the loop of a rule starts from; an early return and an error leave the loop out.
pub data Prepared : Type 0 where
  stopped : Prepared
  ready : (context : Fields) (items : List Fields) (config : Config) → Prepared

marking_by : Config → Option (Option (String → Bool)) → Option (Fields → Fields)
unfolding is_trusted names_of
marking_by c none = none
marking_by c (some pattern) = some (marked (acl_of c) (keep (is_trusted pattern) c.networks))

unfoldable pub marking : Regex → CrossReference → Config → Option (Fields → Fields)
unfolding trusted_pattern marking_by
marking regex x c = marking_by c (trusted_pattern regex x)

pub mark_networks : (Fields → Bool) → (Fields → Fields) → Config → Config
mark_networks selected mark c = record c {
  networks = map (λ n. if selected n then mark n else n) c.networks;
}

from_corporate : List Fields → Config → Option Fields → Prepared
unfolding corporate_context
from_corporate items c none = stopped
from_corporate items c (some n) = ready (corporate_context n) items c

from_marking : (Fields → Bool) → List Fields → Config → Option (Fields → Fields) → Prepared
from_marking selected items c none = stopped
from_marking selected items c (some mark) =
    ready no_fields (map mark items) (mark_networks selected mark c)

prepare_with : Regex → RuleDetection → CrossReference → Config → Prepared
unfolding has_dns
prepare_with regex d x c =
    let items = get_target_items regex d.target c d.filter in
    if str_eq x.kind "find_corporate_network"
    then from_corporate items c (find has_dns c.networks)
    else if str_eq x.kind "l3_acl_coverage" && str_eq d.target "networks"
    then from_marking (passes_filter regex d.target d.filter) items c (marking regex x c)
    else ready no_fields items c

prepare_by : Regex → RuleDetection → Config → Option CrossReference → Prepared
prepare_by regex d c none = ready no_fields (get_target_items regex d.target c d.filter) c
prepare_by regex d c (some x) = prepare_with regex d x c

pub prepare : Regex → RuleDetection → Config → Prepared
unfolding prepare_by
prepare regex d c = prepare_by regex d c d.cross_reference
