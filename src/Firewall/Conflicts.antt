-- ===== src/Firewall/Conflicts.antt =====
-- Which conflicts of firewall rules are reported, and how often.
use zero_proof.Base.{
  ◌*◌, String, ◌≡◌, refl, ap, ◌∙◌, inl, inr, Bool, true, false, not, ◌&&◌, ◌||◌, Option, none, some,
  List, [], ◌∷◌, ◌++◌, map, str_eq, if◌then◌else◌, Bool-cases, length, keep, any, concat_map,
}
use zero_proof.Base.Dict.{get}
use zero_proof.Base.Text.{trim}
use mathlib.Core.List.{append-nil}
use zero_proof.Detection.{Severity}
use zero_proof.Firewall.Conflicting.{
  are_in_conflict, conflict_told, are_in_conflict-flip, are_in_conflict_self, are_in_conflict-eq,
}
use zero_proof.Firewall.OrderedPairs.{count_pairs, length-pairs}
use zero_proof.Firewall.Checks.{
  is_overly_permissive, permissive_findings, dangerous_ports, port_finding, ports_findings,
  listed_ports, check_dangerous_ports, blocks_private, check_missing_rules, is_security_rule,
  disabled_finding, check_disabled_security_rules,
}
use zero_proof.Firewall.Pairs.{
  is_compared, is_shadowed_by, is_conflict, pair_findings, find_rule_conflicts,
}
use zero_proof.Firewall.Analysis.{rule_findings, analyze_firewall_rules}
use zero_proof.Firewall.{FirewallRule, Finding, FindingType, conflicting_rules, has_part}

tells_conflict : FindingType → Bool
tells_conflict conflicting_rules = true
tells_conflict _ = false

-- The findings of the type CONFLICTING_RULES
pub conflicts_in : List Finding → List Finding
unfolding tells_conflict
conflicts_in fs = keep (λ f. tells_conflict f.type) fs

conflicts_in-append :
    (xs ys : List Finding) → conflicts_in (xs ++ ys) ≡ conflicts_in xs ++ conflicts_in ys
unfolding conflicts_in
conflicts_in-append [] ys = refl
conflicts_in-append (x ∷ xs) ys = elim (Bool-cases (tells_conflict x.type)) [
  | inl h ↦ rw h (rw (conflicts_in-append xs ys) refl)
  | inr h ↦ rw h (conflicts_in-append xs ys)
]

conflicts_in-permissive : (r : FirewallRule) → conflicts_in (permissive_findings r) ≡ []
unfolding conflicts_in permissive_findings
conflicts_in-permissive r = elim (Bool-cases (is_overly_permissive r)) [
  | inl open_rule ↦ rw open_rule refl
  | inr closed ↦ rw closed refl
]

conflicts_in-port :
    (r : FirewallRule) (port : String) (o : Option Severity)
    → conflicts_in (port_finding r port o) ≡ []
unfolding conflicts_in port_finding
conflicts_in-port r port none = refl
conflicts_in-port r port (some v) = elim (Bool-cases (has_part r.rule_set "WAN")) [
  | inl wan ↦ rw wan refl
  | inr inside ↦ rw inside refl
]

conflicts_in-ports : (r : FirewallRule) (ps : List String) → conflicts_in (ports_findings r ps) ≡ []
unfolding ports_findings conflicts_in
conflicts_in-ports r [] = refl
conflicts_in-ports r (p ∷ ps) =
    let here = port_finding r (trim p) (get dangerous_ports (trim p)) in
    conflicts_in-append here (ports_findings r ps)
    ∙ rw (conflicts_in-port r (trim p) (get dangerous_ports (trim p)), conflicts_in-ports r ps) refl

conflicts_in-dangerous : (r : FirewallRule) → conflicts_in (check_dangerous_ports r) ≡ []
unfolding check_dangerous_ports conflicts_in
conflicts_in-dangerous r = elim (Bool-cases (not (str_eq r.action "accept") || not r.enabled)) [
  | inl skipped ↦ rw skipped refl
  | inr looked ↦ rw looked (conflicts_in-ports r (listed_ports r.dst_port))
]

-- One item where a test holds
abbrev one_if : Bool → Finding → List Finding
one_if b f = if b then f ∷ [] else []

conflicts_in-pair :
    (r other : FirewallRule)
    → conflicts_in (pair_findings r other) ≡ one_if (is_conflict r other) (conflict_told r other)
unfolding conflicts_in pair_findings
conflicts_in-pair r other = elim (Bool-cases (is_shadowed_by other r)) [
  | inl shadowed ↦
      rw shadowed
        (elim (Bool-cases (is_conflict r other)) [ inl h ↦ rw h refl | inr h ↦ rw h refl ])
  | inr seen ↦
      rw seen (elim (Bool-cases (is_conflict r other)) [ inl h ↦ rw h refl | inr h ↦ rw h refl ])
]

-- The findings on the conflicts of one rule with others
abbrev told_with : (FirewallRule → Bool) → FirewallRule → List FirewallRule → List Finding
told_with p r others = map (conflict_told r) (keep p others)

chosen :
    (b : Bool) (r o : FirewallRule) (os : List FirewallRule)
    → one_if b (conflict_told r o) ++ map (conflict_told r) os
      ≡ map (conflict_told r) (if b then o ∷ os else os)
chosen true r o os = refl
chosen false r o os = refl

conflicts_in-conflicts :
    (r : FirewallRule) (others : List FirewallRule)
    → conflicts_in (find_rule_conflicts r others)
      ≡ told_with (λ o. is_compared r o && is_conflict r o) r others
unfolding find_rule_conflicts conflicts_in
conflicts_in-conflicts r [] = refl
conflicts_in-conflicts r (o ∷ others) =
    let later = conflicts_in-conflicts r others in
    elim (Bool-cases (is_compared r o)) [
      | inl compared ↦ rw compared (
          conflicts_in-append (pair_findings r o) (find_rule_conflicts r others)
          ∙ rw (conflicts_in-pair r o, later) (chosen (is_conflict r o) r o _))
      | inr skipped ↦ rw skipped later
    ]

keep-same :
    (p q : FirewallRule → Bool) (xs : List FirewallRule)
    → ((x : FirewallRule) → p x ≡ q x)
    → keep p xs ≡ keep q xs
keep-same p q [] h = refl
keep-same p q (x ∷ xs) h = rw (h x, keep-same p q xs h) refl

keep_none : (xs : List FirewallRule) → keep (λ (o : FirewallRule). false) xs ≡ []
keep_none [] = refl
keep_none (x ∷ xs) = keep_none xs

conflicts_in-looked :
    (b : Bool) (fs : List Finding) (f : FirewallRule → Bool) (r : FirewallRule)
    (rules : List FirewallRule)
    → conflicts_in fs ≡ told_with f r rules
    → conflicts_in (if b then fs else []) ≡ told_with (λ o. b && f o) r rules
unfolding conflicts_in
conflicts_in-looked true fs f r rules e = e
conflicts_in-looked false fs f r rules e = rw (keep_none rules) refl

conflicts_in-rule :
    (rules : List FirewallRule) (r : FirewallRule)
    → conflicts_in (rule_findings rules r) ≡ told_with (are_in_conflict r) r rules
unfolding rule_findings
conflicts_in-rule rules r =
    let alone = permissive_findings r ++ check_dangerous_ports r in
    conflicts_in-looked r.enabled (alone ++ find_rule_conflicts r rules)
      (λ o. is_compared r o && is_conflict r o) r rules
      (rw
        (
          conflicts_in-append alone (find_rule_conflicts r rules),
          conflicts_in-append (permissive_findings r) (check_dangerous_ports r),
          conflicts_in-permissive r,
          conflicts_in-dangerous r,
        )
        (conflicts_in-conflicts r rules))
    ∙ ap (map (conflict_told r)) (keep-same _ _ rules (are_in_conflict-eq r))

conflicts_in-rules :
    (rules todo : List FirewallRule)
    → conflicts_in (concat_map (rule_findings rules) todo)
      ≡ concat_map (λ r. told_with (are_in_conflict r) r rules) todo
unfolding conflicts_in
conflicts_in-rules rules [] = refl
conflicts_in-rules rules (r ∷ todo) =
    conflicts_in-append (rule_findings rules r) (concat_map (rule_findings rules) todo)
    ∙ rw (conflicts_in-rule rules r, conflicts_in-rules rules todo) refl

conflicts_in-missing : (rules : List FirewallRule) → conflicts_in (check_missing_rules rules) ≡ []
unfolding check_missing_rules conflicts_in
conflicts_in-missing rules = elim (Bool-cases (any blocks_private rules)) [
  | inl there ↦ rw there refl
  | inr missing ↦ rw missing refl
]

conflicts_in-disabled : (rules : List FirewallRule) → conflicts_in (map disabled_finding rules) ≡ []
unfolding conflicts_in disabled_finding
conflicts_in-disabled [] = refl
conflicts_in-disabled (r ∷ rules) = conflicts_in-disabled rules

conflicts_in-analyze :
    (rules : List FirewallRule)
    → conflicts_in (analyze_firewall_rules rules)
      ≡ concat_map (λ r. told_with (are_in_conflict r) r rules) rules
unfolding analyze_firewall_rules check_disabled_security_rules
conflicts_in-analyze rules =
    let each = concat_map (rule_findings rules) rules in
    let off = keep (λ r. not r.enabled && is_security_rule r) rules in
    rw
      (
        conflicts_in-append (each ++ check_missing_rules rules) (map disabled_finding off),
        conflicts_in-append each (check_missing_rules rules),
        conflicts_in-missing rules,
        conflicts_in-disabled off,
        append-nil (conflicts_in each),
        append-nil (conflicts_in each),
      )
      (conflicts_in-rules rules rules)

-- The findings of the type CONFLICTING_RULES are, rule after rule, one of severity MEDIUM for each
-- rule that it conflicts with, under the names of the two, and no others; as the conflict is the same
-- from either rule, every pair of rules in conflict is reported twice.
pub analyze_firewall_rules-twice :
    (rules : List FirewallRule)
    → (conflicts_in (analyze_firewall_rules rules)
        ≡ concat_map (λ a. map (conflict_told a) (keep (are_in_conflict a) rules)) rules)
      × ((a b : FirewallRule) → are_in_conflict a b ≡ are_in_conflict b a)
      × (length (conflicts_in (analyze_firewall_rules rules))
          ≡ 2 * count_pairs are_in_conflict rules)
analyze_firewall_rules-twice rules = (
  conflicts_in-analyze rules,
  are_in_conflict-flip,
  ap length (conflicts_in-analyze rules)
      ∙ length-pairs are_in_conflict conflict_told are_in_conflict-flip are_in_conflict_self rules,
)
