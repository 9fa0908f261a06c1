-- ===== src/PortForwards/Called.antt =====
-- What the port forwards of a configuration call for, described on its own.
use zero_proof.Base.{
  ℕ, String, append, Bool, false, not, ◌||◌, Option, none, some, List, [], ◌∷◌, map, str_eq, ltb,
  ◌==◌, if◌then◌else◌, or_else, keep,
}
use zero_proof.Base.Text.{concat, show}
use zero_proof.Base.Dict.{get}
use zero_proof.Detection.{Severity, medium, info, low}
use zero_proof.PortForwards.{
  PortForward, FindingType, Finding, Risk, risky_port_forward, unrestricted_port_forward,
  port_mapping_mismatch, port_forward_no_logging, excessive_port_forwards, port_to_check,
  risky_ports,
}

unfoldable pub type_code : FindingType → ℕ
type_code risky_port_forward = 0
type_code unrestricted_port_forward = 1
type_code port_mapping_mismatch = 2
type_code port_forward_no_logging = 3
type_code excessive_port_forwards = 4

-- What a finding tells: its type, its severity, its title and the resource that it is about
pub record Told : Type 0 where
  pub type : FindingType
  pub severity : Severity
  pub title : String
  pub affected_resource : String

unfoldable pub told : Finding → Told
told f = record {
  type = f.type;
  severity = f.severity;
  title = f.title;
  affected_resource = f.affected_resource;
}

abbrev pub told_if : Bool → Told → List Told
told_if b f = if b then f ∷ [] else []

-- What the findings of a type tell
unfoldable pub told_of : FindingType → List Finding → List Told
told_of t fs = map told (keep (λ f. type_code f.type == type_code t) fs)

abbrev pub risk_told : PortForward → Option Risk → List Told
risk_told pf none = []
risk_told pf (some r) =
    record {
      type = risky_port_forward;
      severity = r.severity;
      title =
          concat (r.service ∷ " (port " ∷ port_to_check pf ∷ ") is forwarded to the internet" ∷ []);
      affected_resource = concat (pf.name ∷ " (" ∷ pf.fwd ∷ ":" ∷ pf.fwd_port ∷ ")" ∷ []);
    }
    ∷ []

-- A finding about a port forward, under its name
abbrev about : PortForward → FindingType → Severity → String → String → Told
about pf t v before after = record {
  type = t;
  severity = v;
  title = concat (before ∷ pf.name ∷ after ∷ []);
  affected_resource = pf.name;
}

-- What an enabled port forward calls for in findings of a type
abbrev pub called_for : FindingType → PortForward → List Told
called_for risky_port_forward pf = risk_told pf (get risky_ports (port_to_check pf))
called_for unrestricted_port_forward pf =
    told_if (str_eq (or_else pf.src "") "" || str_eq (or_else pf.src "") "any")
      (about pf unrestricted_port_forward medium "Port forward \"" "\" allows any source IP")
called_for port_mapping_mismatch pf =
    told_if (not (str_eq pf.dst_port pf.fwd_port))
      (about pf port_mapping_mismatch info "Port forward \"" "\" uses non-standard mapping")
called_for port_forward_no_logging pf =
    told_if (not (or_else pf.log false))
      (about pf port_forward_no_logging low "Logging disabled on port forward \"" "\"")
called_for excessive_port_forwards pf = []

-- What more than ten enabled port forwards call for
abbrev pub called_for_by_all : FindingType → ℕ → List Told
called_for_by_all excessive_port_forwards n = told_if (ltb 10 n) (record {
  type = excessive_port_forwards;
  severity = medium;
  title = append (show n) " active port forwards detected";
  affected_resource = "Port Forward Configuration";
})
called_for_by_all _ n = []
