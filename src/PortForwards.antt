-- ===== src/PortForwards.antt =====
-- analyzers/portForwardAnalyzer.ts: findings on the port forwards of a configuration. The keys of
-- `riskyPorts` are its own; `none` stands for a key that is missing.
pub mod Called
pub mod Told
use zero_proof.Base.{
  ℕ, ◌-◌, String, append, Bool, true, false, not, ◌||◌, Option, none, some, List, [], ◌∷◌, ◌++◌,
  str_eq, ltb, if◌then◌else◌, or_else, length, keep, any, all,
}
use zero_proof.Base.Dict.{Dict, get}
use zero_proof.Base.Text.{is_empty, concat, show}
use zero_proof.Detection.{Severity, info, low, medium, high, critical}

-- `UniFiPortForward`, the keys that the analyzer reads
pub record PortForward : Type 0 where
  pub name : String
  pub enabled : Bool
  pub src : Option String
  pub dst_port : String
  pub fwd : String
  pub fwd_port : String
  pub log : Option Bool

pub data FindingType : Type 0 where
  risky_port_forward unrestricted_port_forward port_mapping_mismatch : FindingType
  port_forward_no_logging excessive_port_forwards : FindingType

pub record Finding : Type 0 where
  pub type : FindingType
  pub severity : Severity
  pub title : String
  pub description : String
  pub impact : String
  pub remediation : String
  pub affected_resource : String

pub record Risk : Type 0 where
  pub severity : Severity
  pub service : String
  pub recommendation : String

risk : String → Severity → String → String → String × Risk
risk port v name advice = (port, record { severity = v; service = name; recommendation = advice })

pub risky_ports : Dict Risk
unfolding risk
risky_ports =
    risk "21" high "FTP" "Use SFTP or SCP instead of FTP"
    ∷ risk "22" medium "SSH" "Use a VPN or restrict to specific IPs"
    ∷ risk "23" critical "Telnet" "Never expose Telnet - use SSH instead"
    ∷ risk "25" medium "SMTP" "Use a proper mail relay or hosting service"
    ∷ risk "110" high "POP3" "Use POP3S (port 995) instead"
    ∷ risk "143" high "IMAP" "Use IMAPS (port 993) instead"
    ∷ risk "445" critical "SMB" "Never expose SMB to the internet"
    ∷ risk "1433" critical "MSSQL" "Use a VPN for database access"
    ∷ risk "3306" critical "MySQL" "Use a VPN for database access"
    ∷ risk "3389" high "RDP" "Use a VPN instead of exposing RDP directly"
    ∷ risk "5432" critical "PostgreSQL" "Use a VPN for database access"
    ∷ risk "5900" high "VNC" "Use a VPN instead of exposing VNC directly"
    ∷ risk "6379" critical "Redis" "Never expose Redis to the internet"
    ∷ risk "27017" critical "MongoDB" "Never expose MongoDB to the internet"
    ∷ []

-- `dstPort || fwdPort`
abbrev pub port_to_check : PortForward → String
port_to_check pf = if is_empty pf.dst_port then pf.fwd_port else pf.dst_port

-- `portToCheck && riskyPorts[portToCheck]`
pub risk_of : PortForward → Option Risk
risk_of pf = if is_empty (port_to_check pf) then none else get risky_ports (port_to_check pf)

risky_finding : PortForward → Risk → Finding
risky_finding pf r = record {
  type = risky_port_forward;
  severity = r.severity;
  title = concat (r.service ∷ " (port " ∷ port_to_check pf ∷ ") is forwarded to the internet" ∷ []);
  description = concat (
      "The port forward \"" ∷ pf.name ∷ "\" exposes " ∷ r.service ∷ " to the internet. "
      ∷ r.recommendation ∷ "." ∷ []);
  impact =
      append r.service
        " is a common target for attackers. Exposing it directly to the internet significantly increases your attack surface.";
  remediation = concat (
      r.recommendation
      ∷ ".\n\nIn UniFi:\n1. Go to Settings > Routing & Firewall > Port Forwarding\n2. Disable or remove \""
      ∷ pf.name ∷ "\"\n3. Set up a VPN for remote access instead" ∷ []);
  affected_resource = concat (pf.name ∷ " (" ∷ pf.fwd ∷ ":" ∷ pf.fwd_port ∷ ")" ∷ []);
}

risky_findings : PortForward → Option Risk → List Finding
risky_findings pf none = []
risky_findings pf (some r) = risky_finding pf r ∷ []

-- `!pf.src || pf.src === 'any'`
pub is_unrestricted : PortForward → Bool
is_unrestricted pf = elim pf.src [ none ↦ true | some s ↦ is_empty s || str_eq s "any" ]

unrestricted_finding : PortForward → Finding
unrestricted_finding pf = record {
  type = unrestricted_port_forward;
  severity = medium;
  title = concat ("Port forward \"" ∷ pf.name ∷ "\" allows any source IP" ∷ []);
  description =
      "The port forward allows connections from any IP address. Consider restricting to known IPs if possible.";
  impact = "Anyone on the internet can attempt to connect to the forwarded service.";
  remediation = concat (
      "If you know which IPs need access, restrict the port forward to those IPs only.\n\nIn UniFi:\n1. Go to Settings > Routing & Firewall > Port Forwarding\n2. Edit \""
      ∷ pf.name ∷ "\"\n3. Set a specific source IP or range" ∷ []);
  affected_resource = pf.name;
}

abbrev pub is_mismatched : PortForward → Bool
is_mismatched pf = not (str_eq pf.dst_port pf.fwd_port)

mismatch_finding : PortForward → Finding
mismatch_finding pf = record {
  type = port_mapping_mismatch;
  severity = info;
  title = concat ("Port forward \"" ∷ pf.name ∷ "\" uses non-standard mapping" ∷ []);
  description = concat (
      "External port " ∷ pf.dst_port ∷ " forwards to internal port " ∷ pf.fwd_port
      ∷ ". This provides minimal security benefit." ∷ []);
  impact = "Port scanners will still discover the service regardless of the external port used.";
  remediation =
      "Security through obscurity is not effective. Focus on securing the service itself.";
  affected_resource = pf.name;
}

-- `!pf.log`
abbrev pub is_unlogged : PortForward → Bool
is_unlogged pf = not (or_else pf.log false)

unlogged_finding : PortForward → Finding
unlogged_finding pf = record {
  type = port_forward_no_logging;
  severity = low;
  title = concat ("Logging disabled on port forward \"" ∷ pf.name ∷ "\"" ∷ []);
  description = "Connection attempts to this port forward are not being logged.";
  impact = "You will not have visibility into who is connecting to this service.";
  remediation = concat (
      "Enable logging for this port forward.\n\nIn UniFi:\n1. Go to Settings > Routing & Firewall > Port Forwarding\n2. Edit \""
      ∷ pf.name ∷ "\"\n3. Enable logging" ∷ []);
  affected_resource = pf.name;
}

-- `if (b) findings.push(f)`
abbrev pub pushed_if : Bool → Finding → List Finding
pushed_if b f = if b then f ∷ [] else []

-- What one round of the loop pushes
pub findings_on : PortForward → List Finding
findings_on pf =
    if not pf.enabled
    then []
    else risky_findings pf (risk_of pf)
      ++ pushed_if (is_unrestricted pf) (unrestricted_finding pf)
      ++ pushed_if (is_mismatched pf) (mismatch_finding pf)
      ++ pushed_if (is_unlogged pf) (unlogged_finding pf)

findings_on_all : List PortForward → List Finding
findings_on_all [] = []
findings_on_all (pf ∷ pfs) = findings_on pf ++ findings_on_all pfs

abbrev pub enabled_forwards : List PortForward → List PortForward
enabled_forwards pfs = keep (λ pf. pf.enabled) pfs

excessive_finding : ℕ → Finding
excessive_finding n = record {
  type = excessive_port_forwards;
  severity = medium;
  title = append (show n) " active port forwards detected";
  description =
      "A large number of port forwards increases your attack surface. Review if all are necessary.";
  impact = "Each port forward is a potential entry point for attackers.";
  remediation =
      "Review all port forwards and disable any that are no longer needed. Consider using a VPN for services that only you need to access.";
  affected_resource = "Port Forward Configuration";
}

-- `analyzePortForwards`
pub analyze_port_forwards : List PortForward → List Finding
analyze_port_forwards pfs =
    findings_on_all pfs
    ++ pushed_if (ltb 10 (length (enabled_forwards pfs)))
        (excessive_finding (length (enabled_forwards pfs)))
