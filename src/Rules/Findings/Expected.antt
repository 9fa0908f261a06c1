-- ===== src/Rules/Findings/Expected.antt =====
-- What a rule is expected to tell of an item, described on its own.
use zero_proof.Base.{
  ℕ, suc, ◌+◌, ◌-◌, String, append, ◌≡◌, refl, ap, ◌∙◌, inl, inr, Bool, true, false, not, Option,
  none, some, List, [], ◌∷◌, map, arith, str_eq, leb, if◌then◌else◌, Bool-cases, or_else, is_some,
}
use zero_proof.Base.Text.{includes, split, number, show}
use zero_proof.Rules.Value.{
  Value, undefined, null, bool, num, Fields, str, obj, arr, own, no_fields, field_at, text_of,
  truthy, items_include,
}
use zero_proof.Rules.Conditions.{Regex}
use zero_proof.Rules.Targets.{set_field}
use zero_proof.Rules.Template.{interpolate_template}
use zero_proof.Rules.Rule.{SecurityRule, RuleCheckResult}
use zero_proof.Rules.Findings.{
  check_result, optional_text, item_context, port_service, port_range_size, with_size, size_text,
  difference,
}
use zero_proof.Rules.Findings.Laws.{before_error, is_fine, reported}

-- The name of a port in the rule's list, `Unknown` where the list does not have it
abbrev pub service_of : Fields → Value → Value
service_of services port =
    let named = field_at services (text_of port) in if truthy named then named else str "Unknown"

-- How many ports there are from one to the other, both included
abbrev pub ports_between : Option ℕ → Option ℕ → String
ports_between (some start) (some stop) =
    if leb start (stop + 1) then show (stop + 1 - start) else append "-" (show (start - (stop + 1)))
ports_between _ _ = "NaN"

abbrev pub range_size : List String → String
range_size (start ∷ stop ∷ rest) = ports_between (number start) (number stop)
range_size _ = "NaN"

abbrev pub service_known : Option Fields → Value → Fields
service_known none port = no_fields
service_known (some services) port =
    if truthy port then own "port_service" (service_of services port) no_fields else no_fields

-- What the templates may name beside the fields of the item: the service of its port, and the size
-- of a range of ports
abbrev pub names_of : Option Fields → Value → Fields
names_of services (str port) =
    let known = service_known services (str port) in
    if includes port "-"
    then set_field known "port_range_size" (str (range_size (split b'-' port)))
    else known
names_of services port = service_known services port

-- A port that is no text is an error, unless it is falsy or an array without the text `-`.
abbrev pub port_is_fine : Value → Bool
port_is_fine (str port) = true
port_is_fine (arr ports) = not (items_include ports (str "-"))
port_is_fine port = not (truthy port)

abbrev pub filled_in : Option String → Fields → Fields → Option String
filled_in none item names = none
filled_in (some t) item names =
    if str_eq t "" then none else some (interpolate_template t item names)

-- The finding on an item: the templates of the rule, filled in with the item
abbrev pub expected : SecurityRule → Fields → RuleCheckResult
expected r item =
    let o = r.detection.output in
    let names = names_of r.sensitive_ports (field_at item "dst_port") in
    record {
      found = true;
      affected_resource = interpolate_template o.affected_resource item names;
      details = interpolate_template o.details item names;
      current_value = filled_in o.current_value item names;
      expected_value = filled_in o.expected_value item names;
    }

show_last : (stop : ℕ) → stop + 1 ≡ suc stop
show_last stop = omega arith

between-eq : (o p : Option ℕ) → difference o p ≡ ports_between o p
unfolding difference
between-eq none p = refl
between-eq (some start) none = refl
between-eq (some start) (some stop) = rw (show_last stop) refl

range_size-eq : (parts : List String) → size_text parts ≡ range_size parts
unfolding size_text
range_size-eq [] = refl
range_size-eq (start ∷ []) = refl
range_size-eq (start ∷ stop ∷ rest) = between-eq (number start) (number stop)

service-eq :
    (services : Option Fields) (port : Value)
    → port_service services port no_fields ≡ service_known services port
unfolding port_service set_field
service-eq none port = refl
service-eq (some services) port = refl

flipped :
    (b : Bool) (names : Fields)
    → (if b then none else some names) ≡ (if not b then some names else none)
flipped true names = refl
flipped false names = refl

port_range_size-eq :
    (services : Option Fields) (port : Value)
    → port_range_size port (service_known services port)
      ≡ (if port_is_fine port then some (names_of services port) else none)
unfolding port_range_size with_size
port_range_size-eq services (str port) = rw (range_size-eq (split b'-' port)) refl
port_range_size-eq services (arr ports) =
    flipped (items_include ports (str "-")) (service_known services (arr ports))
port_range_size-eq services undefined =
    flipped (truthy undefined) (service_known services undefined)
port_range_size-eq services null = flipped (truthy null) (service_known services null)
port_range_size-eq services (bool b) = flipped (truthy (bool b)) (service_known services (bool b))
port_range_size-eq services (num n) = flipped (truthy (num n)) (service_known services (num n))
port_range_size-eq services (obj fs) = flipped (truthy (obj fs)) (service_known services (obj fs))

item_context-eq :
    (services : Option Fields) (item : Fields)
    → let port = field_at item "dst_port" in
      item_context services no_fields item
      ≡ (if port_is_fine port then some (names_of services port) else none)
unfolding item_context
item_context-eq services item =
    let port = field_at item "dst_port" in
    rw (service-eq services port) (port_range_size-eq services port)

optional-eq :
    (o : Option String) (item names : Fields) → optional_text o item names ≡ filled_in o item names
unfolding optional_text
optional-eq none item names = refl
optional-eq (some t) item names = refl

check_result-expected :
    (r : SecurityRule) (i : Fields)
    → check_result r.detection.output i (names_of r.sensitive_ports (field_at i "dst_port"))
      ≡ expected r i
unfolding check_result
check_result-expected r i =
    let names = names_of r.sensitive_ports (field_at i "dst_port") in
    let o = r.detection.output in
    rw (optional-eq o.current_value i names, optional-eq o.expected_value i names) refl

-- The loop finds what is expected, up to the first item whose port is an error.
pub reported-expected :
    (regex : Regex) (r : SecurityRule) (items : List Fields)
    → map (reported regex r no_fields) (before_error (is_fine regex r no_fields) items)
      ≡ map (expected r) (before_error (λ i. port_is_fine (field_at i "dst_port")) items)
reported-expected regex r [] = refl
reported-expected regex r (i ∷ is) =
    let port = field_at i "dst_port" in
    let later = reported-expected regex r is in
    elim (Bool-cases (port_is_fine port)) [
      | inl fine ↦
          let known : item_context r.sensitive_ports no_fields i
              ≡ some (names_of r.sensitive_ports port) =
            item_context-eq r.sensitive_ports i ∙ rw fine refl in
          let told : reported regex r no_fields i ≡ expected r i =
            ap (λ o. check_result r.detection.output i (or_else o no_fields)) known
            ∙ check_result-expected r i in
          rw (fine, ap is_some known) (rw (told, later) refl)
      | inr failing ↦
          let wrong : item_context r.sensitive_ports no_fields i ≡ none =
            item_context-eq r.sensitive_ports i ∙ rw failing refl in
          rw (failing, ap is_some wrong) refl
    ]
