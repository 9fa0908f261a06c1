-- ===== src/Rules/Findings.antt =====
-- ruleEngine.ts, executeRule: the finding on an item, and the loop over the items. An error ends the
-- loop, which keeps what it has found so far.
pub mod Laws
pub mod Expected
use zero_proof.Base.{
  ℕ, suc, ◌-◌, String, append, true, Option, none, some, List, [], ◌∷◌, leb, if◌then◌else◌,
}
use zero_proof.Base.Text.{includes, split, number, show, is_empty}
use zero_proof.Rules.Value.{Value, Fields, str, obj, arr, field_at, text_of, truthy, items_include}
use zero_proof.Rules.Conditions.{Regex, evaluate_condition}
use zero_proof.Rules.Template.{interpolate_template}
use zero_proof.Rules.Targets.{set_field}
use zero_proof.Rules.Rule.{Output, SecurityRule, RuleCheckResult}

optional_text : Option String → Fields → Fields → Option String
optional_text none item context = none
optional_text (some t) item context =
    if is_empty t then none else some (interpolate_template t item context)

pub check_result : Output → (item context : Fields) → RuleCheckResult
unfolding optional_text
check_result o item context = record {
  found = true;
  affected_resource = interpolate_template o.affected_resource item context;
  details = interpolate_template o.details item context;
  current_value = optional_text o.current_value item context;
  expected_value = optional_text o.expected_value item context;
}

port_service : Option Fields → Value → Fields → Fields
port_service none port context = context
port_service (some services) port context =
    if truthy port
    then set_field context "port_service" (
        if truthy (field_at services (text_of port))
        then field_at services (text_of port)
        else str "Unknown")
    else context

-- `String(end - start + 1)`, where NaN stands for what is no number
difference : Option ℕ → Option ℕ → String
difference (some start) (some stop) =
    if leb start (suc stop) then show (suc stop - start) else append "-" (show (start - suc stop))
difference _ _ = "NaN"

size_text : List String → String
unfolding difference
size_text (start ∷ stop ∷ rest) = difference (number start) (number stop)
size_text _ = "NaN"

with_size : String → Fields → Fields
with_size port context =
    if includes port "-"
    then set_field context "port_range_size" (str (size_text (split b'-' port)))
    else context

-- `item.dst_port && item.dst_port.includes('-')` and what follows; `none` is an error
port_range_size : Value → Fields → Option Fields
unfolding size_text with_size
port_range_size (str port) context = some (with_size port context)
port_range_size (arr ports) context = if items_include ports (str "-") then none else some context
port_range_size port context = if truthy port then none else some context

pub item_context : Option Fields → Fields → Fields → Option Fields
unfolding port_service port_range_size
item_context services context item =
    let port = field_at item "dst_port" in port_range_size port (port_service services port context)

-- The finding on an item goes before those that follow; an error ends the loop.
report_before : Output → Fields → Option Fields → List RuleCheckResult → List RuleCheckResult
report_before o item none later = []
report_before o item (some context) later = check_result o item context ∷ later

-- The loop over the items
pub findings_from : Regex → SecurityRule → Fields → List Fields → List RuleCheckResult
unfolding report_before
findings_from regex r context [] = []
findings_from regex r context (item ∷ items) =
    let rest = findings_from regex r context items in
    if evaluate_condition regex (some (obj context)) (obj item) r.detection.condition
    then report_before r.detection.output item (item_context r.sensitive_ports context item) rest
    else rest
