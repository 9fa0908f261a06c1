-- ===== src/Detectors.antt =====
-- What the detectors share: flow rows, the event store that they query, the environment, the test
-- for private addresses that several of them declare alike, and the loop over the rows.
pub mod HoneypotHit
pub mod AdminPortEgress
pub mod DnsBypass
pub mod Merging
pub mod Threshold
pub mod RepeatingThreat
pub mod InternalScanning
pub mod HighEgressVolume
pub mod HighRiskCountryEgress
pub mod DnsTunneling
pub mod Paging
pub mod Identity
pub mod ThreatIntel
pub mod IocMatch
pub mod ValidatedCompromise
use text.Mathlib.Text.{starts_with}
use zero_proof.Base.{
  ℕ, String, Bool, true, ◌≡◌, ◌||◌, Option, none, some, List, [], ◌∷◌, or_else, any, keep, All, not,
  false, ◌&&◌, if◌then◌else◌, str_eq,
}
use zero_proof.Base.Text.{is_empty, to_lower_case}
use zero_proof.Detection.{Evidence, MetaValue}

-- The columns of `firewallFlowEvent` that detectors select
pub record Flow : Type 0 where
  pub id : String
  pub occurred_at : ℕ
  pub action : Option String
  pub src_mac : Option String
  pub src_ip : Option String
  pub src_client_name : Option String
  pub dst_ip : Option String
  pub dst_mac : Option String
  pub dst_port : Option ℕ
  pub dst_region : Option String
  pub bytes_total : Option ℕ

-- The database as a detector sees it: `findMany` with a `where` clause, here the test that the clause
-- states of a row, returns stored rows of which the clause holds, and every such row.
pub record Rows (A : Type 0) : Type 0 where
  pub find_many : (A → Bool) → List A
  pub find_many-All : (p : A → Bool) → All (λ a. p a ≡ true) (find_many p)

-- `process.env`
abbrev pub Env : Type 0
Env = String → Option String

-- An environment variable that is set and not empty
abbrev pub env_value : Env → String → Option String
env_value env name = elim (env name) [
  | none ↦ none
  | some raw ↦ if is_empty raw then none else some raw
]

-- `!s` on a column that may be null
abbrev pub is_blank : Option String → Bool
is_blank none = true
is_blank (some s) = is_empty s

abbrev pub private_prefixes : List String
private_prefixes =
    "10." ∷ "192.168." ∷ "127." ∷ "172.16." ∷ "172.17." ∷ "172.18." ∷ "172.19." ∷ "172.20."
    ∷ "172.21." ∷ "172.22." ∷ "172.23." ∷ "172.24." ∷ "172.25." ∷ "172.26." ∷ "172.27." ∷ "172.28."
    ∷ "172.29." ∷ "172.30." ∷ "172.31." ∷ []

-- The regular expression on 172.16.0.0/12 is its sixteen prefixes.
unfoldable pub is_private_ip : String → Bool
is_private_ip ip = any (starts_with ip) private_prefixes

-- The test on a nullable column: `if (!ip) return false;`
unfoldable pub is_private : Option String → Bool
unfolding is_private_ip
is_private none = false
is_private (some ip) = not (is_empty ip) && is_private_ip ip

-- `flow.srcMac ?? flow.srcIp ?? 'unknown'`
abbrev pub src_key : Flow → String
src_key f = or_else f.src_mac (or_else f.src_ip "unknown")

-- `flow.srcClientName ?? flow.srcMac ?? flow.srcIp ?? 'unknown device'`
abbrev pub actor_of : Flow → String
actor_of f = or_else f.src_client_name (or_else f.src_mac (or_else f.src_ip "unknown device"))

abbrev pub flow_evidence : Flow → Evidence
flow_evidence f = Evidence.flow f.id

-- Whether the controller blocked the flow: `action.toLowerCase() === 'blocked'`
unfoldable pub is_blocked : Option String → Bool
is_blocked none = false
is_blocked (some action) = not (is_empty action) && str_eq (to_lower_case action) "blocked"

-- A nullable text column as a JSON value
abbrev pub text_or_null : Option String → MetaValue
text_or_null none = MetaValue.null
text_or_null (some s) = MetaValue.text s
