-- ===== src/Reachability/Effective.antt =====
-- reachabilityPolicyService.ts, buildEffectiveReachabilityMap: evidence of what the controller does,
-- read off the connections that topologyAnalyzer.ts computes.
use zero_proof.Base.{
  ℕ, String, append, ◌≡◌, refl, inl, inr, Bool, true, false, not, ◌||◌, Option, none, some, List,
  [], ◌∷◌, str_eq, if◌then◌else◌, Bool-cases,
}
use zero_proof.Base.Dict.{Dict}
use zero_proof.Base.Groups.{group}
use zero_proof.Base.Text.{concat, show, is_empty, trim}
use zero_proof.Reachability.{allow, block, text_or}
use zero_proof.Reachability.Decision.{Evidence}

-- The fields of `RuleInfo` and of `EnhancedConnection` that the map is built from
pub record RuleInfo : Type 0 where
  pub name : Option String
  pub rule_set : Option String
  pub rule_index : Option ℕ

pub record Connection : Type 0 where
  pub src_id : String
  pub dst_id : String
  pub allowed : Bool
  pub rules : List RuleInfo
  pub allowed_by_default : Bool
  pub blocked_by_isolation : Bool
  pub isolation_source : Option String

ruleset_text : Option String → String
ruleset_text none = ""
ruleset_text (some r) = if is_empty r then "" else append " (" r

index_text : Option ℕ → String
index_text none = ""
index_text (some n) = append " #" (show n)

suffix_text : String → String → String
suffix_text of_set index =
    if not (is_empty of_set)
    then concat (of_set ∷ index ∷ ")" ∷ [])
    else if not (is_empty index)
    then concat (" (" ∷ trim index ∷ ")" ∷ [])
    else ""

-- `describeRule`: the description of the first rule, `none` where there is no rule
describe_rule : List RuleInfo → Option String
unfolding ruleset_text index_text suffix_text
describe_rule [] = none
describe_rule (r ∷ rs) = some (
    trim (
      append (text_or r.name "Unnamed UniFi rule")
        (suffix_text (ruleset_text r.rule_set) (index_text r.rule_index))))

allow_evidence : Bool → Option String → Evidence
allow_evidence by_default (some rule) = record {
  expected = allow;
  reason = concat ("Allowed by UniFi policy/rule " ∷ rule ∷ "." ∷ []);
  explicit = true;
}
allow_evidence true none = record {
  expected = allow;
  reason = "No matching deny/isolation rule found; path is effectively allowed by default.";
  explicit = false;
}
allow_evidence false none = record {
  expected = allow;
  reason = "Path is effectively allowed based on inferred UniFi behavior.";
  explicit = false;
}

isolation_text : Option String → String
isolation_text none = ""
isolation_text (some s) = if is_empty s then "" else append " on " s

block_evidence : Bool → Option String → Option String → Evidence
unfolding isolation_text
block_evidence true source rule = record {
  expected = block;
  reason = concat ("Blocked by UniFi network isolation" ∷ isolation_text source ∷ "." ∷ []);
  explicit = true;
}
block_evidence false source (some rule) = record {
  expected = block;
  reason = concat ("Blocked by UniFi policy/rule " ∷ rule ∷ "." ∷ []);
  explicit = true;
}
block_evidence false source none = record {
  expected = block;
  reason = "Path is effectively blocked based on inferred UniFi behavior.";
  explicit = false;
}

unfoldable pub evidence_of : Connection → Evidence
unfolding describe_rule allow_evidence block_evidence
evidence_of c =
    if c.allowed
    then allow_evidence c.allowed_by_default (describe_rule c.rules)
    else block_evidence c.blocked_by_isolation c.isolation_source (describe_rule c.rules)

abbrev pub path_key : String → String → String
path_key source target = concat (source ∷ ":" ∷ target ∷ [])

abbrev pub touches_wan : Connection → Bool
touches_wan c = str_eq c.dst_id "WAN" || str_eq c.src_id "WAN"

-- The key of a connection, `none` where the loop skips it
unfoldable pub key_of : Connection → Option String
key_of c = if touches_wan c then none else some (path_key c.src_id c.dst_id)

-- A later connection of the same path replaces the evidence.
unfoldable pub build_effective_reachability_map : List Connection → Dict Evidence
build_effective_reachability_map cs = group key_of (λ o c. evidence_of c) [] cs

allow_evidence-expected :
    (by_default : Bool) (rule : Option String) → (allow_evidence by_default rule).expected ≡ allow
unfolding allow_evidence
allow_evidence-expected by_default (some rule) = refl
allow_evidence-expected true none = refl
allow_evidence-expected false none = refl

block_evidence-expected :
    (isolated : Bool) (source rule : Option String)
    → (block_evidence isolated source rule).expected ≡ block
unfolding block_evidence
block_evidence-expected true source rule = refl
block_evidence-expected false source (some rule) = refl
block_evidence-expected false source none = refl

-- Whatever its text, the evidence expects what the connection says.
pub evidence_of-expected :
    (c : Connection) → (evidence_of c).expected ≡ (if c.allowed then allow else block)
unfolding evidence_of
evidence_of-expected c = elim (Bool-cases c.allowed) [
  | inl passes ↦ rw passes (allow_evidence-expected c.allowed_by_default (describe_rule c.rules))
  | inr stops ↦
      rw stops
        (block_evidence-expected c.blocked_by_isolation c.isolation_source (describe_rule c.rules))
]
