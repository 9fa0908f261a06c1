-- ===== src/Rules/Execution/Laws.antt =====
-- What the execution of rules gives.
use zero_proof.Base.{
  String, ◌≡◌, refl, ap, ◌∙◌, inl, inr, Bool, false, Option, none, some, List, [], ◌∷◌, map,
  Bool-cases, keep,
}
use zero_proof.Rules.Value.{Fields, no_fields, field_at}
use zero_proof.Rules.Conditions.{Regex}
use zero_proof.Rules.Targets.{Config, items_of}
use zero_proof.Rules.Filters.{get_target_items, passes_filter}
use zero_proof.Rules.Rule.{SecurityRule}
use zero_proof.Rules.CrossReferences.{Prepared, stopped, ready, prepare}
use zero_proof.Rules.CrossReferences.Kept.{
  Kept, Kept-same, Kept-then, StartKept, prepare-Kept, is_mark,
}
use zero_proof.Rules.Filters.Meeting.{meets_every, passes_filter-eq}
use zero_proof.Rules.Findings.Expected.{expected, port_is_fine, reported-expected}
use zero_proof.Rules.Findings.Laws.{matches, before_error, findings_from-reported}
use zero_proof.Rules.CrossReferences.Laws.{prepare-plain}
use zero_proof.Topology.{nonempty}
use zero_proof.Rules.Execution.{
  execute_rule, execute_all_rules, execute_standard, run, findings_of, is_report_mode, result_with,
}

run-Kept :
    (k : String) (regex : Regex) (r : SecurityRule) (c : Config) (p : Prepared)
    → StartKept k c p
    → Kept k c (run regex r c p).1
unfolding run
run-Kept k regex r c stopped h = Kept-same k c
run-Kept k regex r c (ready context items c') h = h

findings_of-Kept :
    (k : String) (regex : Regex) (r : SecurityRule) (c : Config) (how : Option String)
    → is_mark k ≡ false
    → Kept k c (findings_of regex r c how).1
unfolding findings_of execute_standard
findings_of-Kept k regex r c (some how) h = Kept-same k c
findings_of-Kept k regex r c none h = elim (Bool-cases (is_report_mode r.detection.report_mode)) [
  | inl reports ↦ rw reports (Kept-same k c)
  | inr standard ↦
      rw standard
        (run-Kept k regex r c (prepare regex r.detection c) (prepare-Kept k regex r.detection c h))
]

-- Each rule gives one result, in the order of the rules and whatever goes wrong in one of them; of
-- the configuration, all lists but the networks are left as they are, and every field of every
-- network but the two that the coverage of the L3 ACL writes.
pub execute_all_rules-Kept :
    (k : String) (regex : Regex) (rules : List SecurityRule) (c : Config)
    → is_mark k ≡ false
    → (map (λ x. x.rule_id) (execute_all_rules regex rules c).0 ≡ map (λ r. r.id) rules)
      × Kept k c (execute_all_rules regex rules c).1
unfolding execute_all_rules execute_rule result_with
execute_all_rules-Kept k regex [] c h = (refl, Kept-same k c)
execute_all_rules-Kept k regex (r ∷ rules) c h =
    let now = (execute_rule regex r c).1 in
    let later = execute_all_rules-Kept k regex rules now h in
    (
      ap (λ ids. r.id ∷ ids) later.0,
      Kept-then k c now (execute_all_rules regex rules now).1
          (findings_of-Kept k regex r c (nonempty r.detection.aggregate) h) later.1,
    )

keep-same :
    (p q : Fields → Bool) (xs : List Fields) → ((x : Fields) → p x ≡ q x) → keep p xs ≡ keep q xs
keep-same p q [] h = refl
keep-same p q (x ∷ xs) h = rw (h x, keep-same p q xs h) refl

-- A standard rule without a cross reference finds, in the order of its items, each item that meets
-- every entry of the filter and the condition, up to the first of them whose port is an error; each
-- finding is the templates of the rule filled in with the item, the service of its port and the size
-- of its range of ports, and the configuration is left as it was.
pub execute_rule-standard :
    (regex : Regex) (r : SecurityRule) (c : Config)
    → nonempty r.detection.aggregate ≡ none
    → is_report_mode r.detection.report_mode ≡ false
    → r.detection.cross_reference ≡ none
    → ((execute_rule regex r c).0.findings
        ≡ map (expected r) (
            before_error
              (λ i. port_is_fine (field_at i "dst_port"))
              (keep (matches regex r no_fields) (
                keep
                  (meets_every regex r.detection.target r.detection.filter)
                  (items_of r.detection.target c)))))
      × ((execute_rule regex r c).1 ≡ c)
unfolding execute_rule findings_of result_with execute_standard run get_target_items
execute_rule-standard regex r c h k l =
    let target = r.detection.target in
    let let_through =
      keep-same (passes_filter regex target r.detection.filter)
        (meets_every regex target r.detection.filter) (items_of target c)
        (passes_filter-eq regex target r.detection.filter) in
    rw h (
      rw k (
        rw (prepare-plain regex r.detection c l) (
          findings_from-reported regex r no_fields
                (get_target_items regex target c r.detection.filter)
              ∙ reported-expected regex r _
              ∙ rw let_through refl,
          refl,
        )))
