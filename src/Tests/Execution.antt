-- ===== src/Tests/Execution.antt =====
-- Rules about port forwards and about the coverage of the L3 ACL.
use zero_proof.Base.{String, ◌≡◌, refl, ◌∙◌, true, none, some, [], ◌∷◌, map, keep}
use zero_proof.Rules.Value.{
  Value, Fields, own, no_fields, str, bool, arr, element, no_items, field_at,
}
use zero_proof.Rules.Conditions.{Regex, Condition, leaf, Op, equals}
use zero_proof.Rules.Targets.{Config, items_of, text_field, elements}
use zero_proof.Rules.Filters.Meeting.{meets_every}
use zero_proof.Rules.Findings.Expected.{expected, port_is_fine}
use zero_proof.Rules.Rule.{RuleDetection, SecurityRule, CrossReference, Output}
use zero_proof.Rules.Template.{
  interpolate_template, parts_of, parts_from, step, give_up, pending, one, is_word,
}
use zero_proof.Rules.Template.Laws.{interpolate_template-unknown}
use zero_proof.Rules.Findings.Laws.{before_error, matches}
use zero_proof.Rules.CrossReferences.{marking, marked, is_trusted, acl_of, id_of}
use zero_proof.Rules.CrossReferences.Laws.{marking-corporate, marked-covers}
use zero_proof.Rules.CrossReferences.Kept.{Kept}
use zero_proof.Rules.Execution.{is_report_mode, execute_rule, execute_all_rules}
use zero_proof.Rules.Execution.Laws.{execute_rule-standard, execute_all_rules-Kept}
use zero_proof.Topology.Pairs.Isolation.{acl_lists}

abbrev no_regex : Regex
no_regex pattern ignore_case = none

abbrev home_lan : Fields
home_lan =
    own "_id" (str "n1") (own "name" (str "Home") (own "purpose" (str "corporate") no_fields))

abbrev things : Fields
things = own "_id" (str "n2") (own "name" (str "IoT") (own "purpose" (str "corporate") no_fields))

abbrev ssh_forward : Fields
ssh_forward =
    own "name" (str "ssh") (own "enabled" (bool true) (own "dst_port" (str "22-23") no_fields))

-- The ACL blocks the things from both networks, themselves included.
abbrev acl_of_things : Fields
acl_of_things =
    own "source_network" (str "n2") (
      own "destination_networks" (arr (element (str "n1") (element (str "n2") no_items))) no_fields)

abbrev config : Config
config = record {
  networks = home_lan ∷ things ∷ [];
  firewall_rules = [];
  firewall_policies = [];
  wlans = [];
  port_forwards = ssh_forward ∷ [];
  clients = [];
  devices = [];
  settings = none;
  acl_rules = [];
  l3_acl_isolation = acl_of_things ∷ [];
  device_isolation_networks = [];
  vpn_servers = [];
  firewall_zones = [];
}

abbrev leaf_of : String → Op → Value → Condition
leaf_of path op value =
    leaf record { path = some path; op = some op; value = value; ref_field = none }

abbrev output : Output
output = record {
  affected_resource = "{{name}}";
  details = "range of {{port_range_size}}";
  current_value = none;
  expected_value = none;
}

abbrev rule : RuleDetection → SecurityRule
rule d = record {
  id = "R-1";
  name = "Rule";
  category = "port";
  severity = "HIGH";
  source_id = none;
  sensitive_ports = none;
  detection = d;
}

abbrev forwards : RuleDetection
forwards = record {
  target = "portForwards";
  filter = none;
  condition = leaf_of "enabled" equals (bool true);
  cross_reference = none;
  aggregate = none;
  aggregate_filter = none;
  additional_condition = none;
  report_mode = none;
  output = output;
}

abbrev coverage : CrossReference
coverage = record { kind = "l3_acl_coverage"; name_pattern = none }

abbrev covered_networks : RuleDetection
covered_networks = record forwards { target = "networks"; cross_reference = some coverage }

execute_rule-standard_example :
    ((execute_rule no_regex (rule forwards) config).0.findings
      ≡ map (expected (rule forwards)) (
          before_error
            (λ i. port_is_fine (field_at i "dst_port"))
            (keep
              (matches no_regex (rule forwards) no_fields)
              (keep (meets_every no_regex "portForwards" none) (items_of "portForwards" config)))))
    × ((execute_rule no_regex (rule forwards) config).1 ≡ config)
unfolding is_report_mode
execute_rule-standard_example = execute_rule-standard no_regex (rule forwards) config refl refl refl

execute_all_rules-Kept_example :
    let rules = rule covered_networks ∷ rule forwards ∷ [] in
    (map (λ x. x.rule_id) (execute_all_rules no_regex rules config).0 ≡ "R-1" ∷ "R-1" ∷ [])
    × Kept "name" config (execute_all_rules no_regex rules config).1
execute_all_rules-Kept_example =
    execute_all_rules-Kept "name" no_regex (rule covered_networks ∷ rule forwards ∷ []) config refl

abbrev mark : Fields → Fields
mark = marked (acl_of config) (keep (is_trusted none) config.networks)

things-covered : field_at (mark things) "has_l3_acl_blocks" ≡ bool true
unfolding acl_of id_of text_field elements is_trusted field_at
things-covered =
    marked-covers (acl_of config) (keep (is_trusted none) config.networks) things ∙ refl

marking-corporate_example : acl_lists (acl_of config) (id_of things) (id_of things) ≡ true
unfolding marking text_field field_at
marking-corporate_example =
    marking-corporate no_regex coverage config mark refl (home_lan ∷ []) [] things refl refl
      things-covered

interpolate_template-unknown_example :
    interpolate_template "{{{port}}" things no_fields ≡ "{{{port}}"
unfolding parts_of parts_from step give_up pending one is_word field_at
interpolate_template-unknown_example =
    interpolate_template-unknown "{{{port}}" things no_fields (tt, (tt, ((refl, refl), (tt, tt))))
