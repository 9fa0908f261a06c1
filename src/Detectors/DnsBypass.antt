-- ===== src/Detectors/DnsBypass.antt =====
-- detectors/dnsBypass.ts: DNS traffic to resolvers outside that are not on the list.
pub mod Reports
use text.Mathlib.Text.{starts_with}
use zero_proof.Base.{
  ℕ, String, ◌≡◌, refl, Bool, true, false, ◌&&◌, ◌||◌, Option, none, some, List, [], ◌∷◌, ◌++◌, map,
  or_else, keep, any, if◌then◌else◌, str_eq, not, arith, ◌==◌, ltb, is_nil, is_some,
}
use zero_proof.Base.Text.{is_empty, trim, split, concat}
use zero_proof.Base.Dict.{values}
use zero_proof.Base.Groups.{group}
use zero_proof.Detection.{
  DetectionResult, DetectorContext, Severity, MetaValue, medium, info, in_window,
}
use zero_proof.Detectors.{
  Flow, Rows, Env, env_value, src_key, actor_of, flow_evidence, is_blank, is_blocked, text_or_null,
}
use zero_proof.Detectors

abbrev default_known_resolvers : List String
default_known_resolvers =
    "1.1.1.1" ∷ "1.0.0.1" ∷ "8.8.8.8" ∷ "8.8.4.4" ∷ "9.9.9.9" ∷ "149.112.112.112" ∷ []

trimmed : List String → List String
trimmed [] = []
trimmed (s ∷ ss) = let entry = trim s in if is_empty entry then trimmed ss else entry ∷ trimmed ss

-- The set as a list of its members
pub known_resolvers : Env → List String
unfolding trimmed
known_resolvers env = elim (env_value env "KNOWN_DNS_RESOLVERS") [
  | none ↦ default_known_resolvers
  | some raw ↦ trimmed (split b',' raw)
]

-- This file's test for private addresses, which knows IPv6 too
pub is_private_ip : String → Bool
is_private_ip ip =
    Detectors.is_private_ip ip
    || str_eq ip "::1"
    || any (starts_with ip) ("fe80:" ∷ "fc" ∷ "fd" ∷ [])

pub severity_for : Option String → Severity
severity_for action = if is_blocked action then info else medium

key_at : List String → Flow → Option String → Option String
key_at allowed f none = none
key_at allowed f (some ip) =
    if is_empty ip || any (str_eq ip) allowed || is_private_ip ip
    then none
    else some (concat ("dns_bypass:" ∷ src_key f ∷ ":" ∷ ip ∷ []))

pub key_of : List String → Flow → Option String
unfolding key_at
key_of allowed f = key_at allowed f f.dst_ip

pub first_query : List String → Flow → DetectionResult
first_query allowed f = record {
  fingerprint = or_else (key_of allowed f) "";
  severity = severity_for f.action;
  title = concat (actor_of f ∷ " used external DNS server " ∷ or_else f.dst_ip "" ∷ []);
  description =
      "Device queried an external DNS resolver that is not on the allowlist. This bypasses the monitored DNS proxy.";
  remediation = none;
  affected_resource = some (actor_of f);
  src_mac = f.src_mac;
  confidence = none;
  evidence = flow_evidence f ∷ [];
  metadata = some (("resolver", text_or_null f.dst_ip) ∷ ("action", text_or_null f.action) ∷ []);
}

-- `if (severityFor(flow.action) === 'MEDIUM') existing.severity = 'MEDIUM'`
raised : Severity → Severity → Severity
raised medium old = medium
raised _ old = old

pub query : List String → Option DetectionResult → Flow → DetectionResult
unfolding first_query raised
query allowed none f = first_query allowed f
query allowed (some r) f = record r {
  severity = raised (severity_for f.action) r.severity;
  evidence = r.evidence ++ flow_evidence f ∷ [];
}

abbrev pub port_is : ℕ → Option ℕ → Bool
port_is n none = false
port_is n (some m) = m == n

abbrev pub selects : DetectorContext → Flow → Bool
selects ctx f = in_window ctx f.occurred_at && port_is 53 f.dst_port && is_some f.dst_ip

pub evaluate : Rows Flow → Env → DetectorContext → List DetectionResult
evaluate rows env ctx =
    let allowed = known_resolvers env in
    values (group (key_of allowed) (query allowed) [] (rows.find_many (selects ctx)))
