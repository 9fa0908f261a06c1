-- ===== src/Firewall/Conflicting.antt =====
-- When two firewall rules are in conflict, described on its own.
use zero_proof.Base.{
  String, ◌≡◌, refl, Bool, false, not, ◌&&◌, ◌||◌, Option, none, some, [], ◌∷◌, arith, str_eq,
  eq_iff, eq_refl,
}
use zero_proof.Base.Text.{concat}
use zero_proof.Detection.{medium}
use zero_proof.Firewall.Pairs.{rules_overlap, is_compared, is_conflict}
use zero_proof.Firewall.{FirewallRule, Finding, conflicting_rules, same, name_text, text_is}

str_eq-flip : (s t : String) → str_eq s t ≡ str_eq t s
str_eq-flip s t = ground (arith, eq_iff s t, eq_iff t s)

same-flip : (o p : Option String) → same o p ≡ same p o
unfolding same
same-flip none none = refl
same-flip none (some t) = refl
same-flip (some s) none = refl
same-flip (some s) (some t) = str_eq-flip s t

-- Two enabled rules with different ids, one ruleset, different actions and overlapping protocols
pub are_in_conflict : FirewallRule → FirewallRule → Bool
are_in_conflict a b =
    a.enabled
    && b.enabled
    && not (same a.id b.id)
    && same a.rule_set b.rule_set
    && not (str_eq a.action b.action)
    && (text_is a.protocol "all" || text_is b.protocol "all" || same a.protocol b.protocol)

-- The finding on the conflict of a rule with another one
abbrev pub conflict_told : FirewallRule → FirewallRule → Finding
conflict_told a b = record {
  type = conflicting_rules;
  severity = medium;
  title = concat ("Rules \"" ∷ name_text a ∷ "\" and \"" ∷ name_text b ∷ "\" may conflict" ∷ []);
  affected_resource = concat (name_text a ∷ " / " ∷ name_text b ∷ []);
}

pub are_in_conflict-flip : (a b : FirewallRule) → are_in_conflict a b ≡ are_in_conflict b a
unfolding are_in_conflict
are_in_conflict-flip a b = ground (
  arith,
  same-flip a.id b.id,
  same-flip a.rule_set b.rule_set,
  str_eq-flip a.action b.action,
  same-flip a.protocol b.protocol,
)

pub are_in_conflict_self : (a : FirewallRule) → are_in_conflict a a ≡ false
unfolding are_in_conflict
are_in_conflict_self a = ground (arith, eq_refl a.action)

pub are_in_conflict-eq :
    (a b : FirewallRule) → (a.enabled && (is_compared a b && is_conflict a b)) ≡ are_in_conflict a b
unfolding are_in_conflict is_compared is_conflict rules_overlap
are_in_conflict-eq a b = ground arith
