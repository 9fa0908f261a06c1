-- ===== src/Tests/Reachability.antt =====
-- A household with a mapped IoT network that the profile isolates.
use zero_proof.Base.{◌≡◌, refl, ◌≢◌, true, false, none, some, List, [], ◌∷◌}
use zero_proof.Base.Dict.{get, set}
use zero_proof.Base.Groups.{group}
use zero_proof.Reachability.{
  home, iot, nas, server, block, Profile, NetworkMappings, allow_all, specific_vlans, same_category,
}
use zero_proof.Reachability.Categories.{
  PolicyNetworkInfo, build_category_map, mapped_category, mappings_of, network_key,
  infer_category_from_name,
}
use zero_proof.Reachability.Intent.{compute_intent_expectation}
use zero_proof.Reachability.Intent.Table.{intent-priority, isolation-holds}
use zero_proof.Reachability.Effective.{Connection}
use zero_proof.Reachability.Evaluator.{create_evaluator, evaluate, get_category}
use zero_proof.Base.Text.{to_lower_case, trim, includes}
use zero_proof.Reachability.Evaluator.Laws.{get_category-last, evaluate-isolation}

abbrev pub mappings : NetworkMappings
mappings = record {
  work_network_id = none;
  iot_network_id = some "n2";
  guest_network_id = none;
  trusted_network_id = none;
  nas_network_id = none;
  server_network_id = none;
}

abbrev pub household : Profile
household = record {
  work_from_home = false;
  work_device_isolation = false;
  work_isolation_mode = none;
  has_iot = true;
  iot_isolation = true;
  nas_accessible_from = specific_vlans;
  guest_network = false;
  guest_isolation = false;
  inter_vlan_default = allow_all;
  reachability_overrides = [];
  network_mappings = some mappings;
}

abbrev networks : List PolicyNetworkInfo
networks = record { id = "n1"; name = "Home LAN" } ∷ record { id = "n2"; name = "Things" } ∷ []

abbrev open_path : Connection
open_path = record {
  src_id = "n1";
  dst_id = "n2";
  allowed = true;
  rules = [];
  allowed_by_default = true;
  blocked_by_isolation = false;
  isolation_source = none;
}

intent-priority_example : (compute_intent_expectation home iot (some household)).expected ≡ block
unfolding same_category
intent-priority_example = intent-priority household home iot

isolation-holds_example :
    ((compute_intent_expectation server iot (some household)).expected ≡ block)
    × (server ≢ nas → (compute_intent_expectation iot server (some household)).expected ≡ block)
isolation-holds_example = isolation-holds household iot server (refl, refl) (λ e. cc) refl refl

is_iot : get_category (create_evaluator (open_path ∷ []) (some household) networks) "n2" ≡ iot
unfolding mapped_category mappings_of network_key
is_iot = get_category-last (open_path ∷ []) (some household) networks "n2"

is_home : get_category (create_evaluator (open_path ∷ []) (some household) networks) "n1" ≡ home
unfolding get_category create_evaluator build_category_map group get set mapped_category mappings_of
    network_key infer_category_from_name to_lower_case trim includes
is_home = refl

evaluate-isolation_example :
    (evaluate (create_evaluator (open_path ∷ []) (some household) networks) "n1" "n2").expected
    ≡ block
evaluate-isolation_example =
    evaluate-isolation (open_path ∷ []) household networks "n1" "n2" iot is_iot (refl, refl)
      (rw is_home (λ e. cc)) refl refl
