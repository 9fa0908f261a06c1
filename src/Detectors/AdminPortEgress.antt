-- ===== src/Detectors/AdminPortEgress.antt =====
-- detectors/adminPortEgress.ts: flows from the inside to administration ports of outside addresses.
pub mod Reports
use zero_proof.Base.{
  ℕ, String, ◌≡◌, refl, Bool, true, false, ◌&&◌, ◌||◌, Option, none, some, List, [], ◌∷◌, ◌++◌, map,
  or_else, keep, any, if◌then◌else◌, str_eq, not, arith, ◌==◌, ltb, is_nil, is_some,
}
use zero_proof.Base.Text.{is_empty, number, split, concat, show}
use zero_proof.Base.Dict.{values}
use zero_proof.Base.Groups.{group}
use zero_proof.Detection.{
  DetectionResult, DetectorContext, Severity, MetaValue, high, low, in_window,
}
use zero_proof.Detectors.{
  Flow, Rows, Env, env_value, src_key, actor_of, flow_evidence, is_blank, is_blocked, is_private_ip,
  text_or_null,
}

abbrev pub default_admin_ports : List ℕ
default_admin_ports = 22 ∷ 23 ∷ 3389 ∷ 5900 ∷ 5901 ∷ 5902 ∷ 5985 ∷ 5986 ∷ []

valid_ports : List String → List ℕ
valid_ports [] = []
valid_ports (s ∷ ss) =
    keep (λ n. ltb 0 n && ltb n 65536) (elim (number s) [ none ↦ [] | some n ↦ n ∷ [] ])
    ++ valid_ports ss

pub admin_ports : Env → List ℕ
unfolding valid_ports
admin_ports env = elim (env_value env "ADMIN_EGRESS_PORTS") [
  | none ↦ default_admin_ports
  | some raw ↦ valid_ports (split b',' raw)
]

pub severity_for : Option String → Severity
severity_for action = if is_blocked action then low else high

-- `dstPort: { in: ports }`
abbrev pub port_in : List ℕ → Option ℕ → Bool
port_in ports none = false
port_in ports (some n) = any (λ p. p == n) ports

-- The key of a row, `none` where the loop goes on to the next
key_at : Flow → Option String → Option ℕ → Option String
key_at f none port = none
key_at f (some ip) none = none
key_at f (some ip) (some port) =
    if is_empty ip || is_private_ip ip
    then none
    else some (concat ("admin_port_egress:" ∷ src_key f ∷ ":" ∷ show port ∷ []))

pub key_of : Flow → Option String
unfolding key_at
key_of f = key_at f f.dst_ip f.dst_port

port_text : Option ℕ → String
port_text none = "null"
port_text (some n) = show n

port_meta : Option ℕ → MetaValue
port_meta none = MetaValue.null
port_meta (some n) = MetaValue.num n

pub first_attempt : Flow → DetectionResult
unfolding port_text port_meta
first_attempt f = record {
  fingerprint = or_else (key_of f) "";
  severity = severity_for f.action;
  title = concat (actor_of f ∷ " attempted egress to admin port " ∷ port_text f.dst_port ∷ []);
  description =
      "Outbound traffic to an admin / remote-management port on the public internet. Rarely legitimate; investigate the source device.";
  remediation = none;
  affected_resource = some (actor_of f);
  src_mac = f.src_mac;
  confidence = none;
  evidence = flow_evidence f ∷ [];
  metadata = some (("dstPort", port_meta f.dst_port) ∷ ("action", text_or_null f.action) ∷ []);
}

-- `if (severityFor(flow.action) === 'HIGH') existing.severity = 'HIGH'`
raised : Severity → Severity → Severity
raised high old = high
raised _ old = old

pub attempt : Option DetectionResult → Flow → DetectionResult
unfolding first_attempt raised
attempt none f = first_attempt f
attempt (some r) f = record r {
  severity = raised (severity_for f.action) r.severity;
  evidence = r.evidence ++ flow_evidence f ∷ [];
}

abbrev pub selects : Env → DetectorContext → Flow → Bool
selects env ctx f =
    in_window ctx f.occurred_at && port_in (admin_ports env) f.dst_port && is_some f.dst_ip

pub evaluate : Rows Flow → Env → DetectorContext → List DetectionResult
evaluate rows env ctx =
    if is_nil (admin_ports env)
    then []
    else values (group key_of attempt [] (rows.find_many (selects env ctx)))
