-- ===== src/Tests/Detectors.antt =====
-- The detectors on a few flows.
use zero_proof.Base.{String, append, ◌≡◌, none, some, List, [], ◌∷◌, keep}
use zero_proof.Base.Dict.{find_named, DistinctNames}
use zero_proof.Base.Groups.{is_key}
use zero_proof.Detection.{DetectionResult}
use zero_proof.Detectors.{Flow, Env}
use zero_proof.Detectors.HoneypotHit
use zero_proof.Detectors.HoneypotHit.Reports as HoneypotReports
use zero_proof.Detectors.AdminPortEgress
use zero_proof.Detectors.AdminPortEgress.Reports as AdminReports
use zero_proof.Detectors.DnsBypass
use zero_proof.Detectors.DnsBypass.Reports as DnsReports
use zero_proof.Detectors.RepeatingThreat
use zero_proof.Detectors.RepeatingThreat.{ThreatEvent}
use zero_proof.Detectors.RepeatingThreat.Reports as ThreatReports
use zero_proof.Detectors.InternalScanning
use zero_proof.Detectors.InternalScanning.Reports as ScanReports
use zero_proof.Detectors.HighEgressVolume
use zero_proof.Detectors.HighEgressVolume.Reports as EgressReports
use zero_proof.Tests.{stored, one_variable, hour, flow_to}

abbrev name_of : DetectionResult → String
name_of r = r.fingerprint

abbrev pub ssh_flows : List Flow
ssh_flows =
    flow_to "f1" "blocked" "203.0.113.9" 22
    ∷ flow_to "f2" "allowed" "203.0.113.9" 22
    ∷ flow_to "f3" "allowed" "10.0.0.9" 22
    ∷ flow_to "f4" "blocked" "198.51.100.1" 53
    ∷ []

abbrev pub with_honeypot : Env
with_honeypot = one_variable "HONEYPOT_IPS" "10.0.0.9"

abbrev no_settings : Env
no_settings name = none

abbrev pub honeypot_key : String
honeypot_key = "honeypot_hit:de:ad:be:ef:00:01:10.0.0.9"

honeypot_hit-report_example :
    (find_named name_of honeypot_key (HoneypotHit.evaluate (stored ssh_flows) with_honeypot hour)
      ≡ HoneypotReports.report (
          keep
            (λ f. is_key honeypot_key (some (HoneypotHit.fingerprint_of f)))
            ((stored ssh_flows).find_many (HoneypotHit.selects with_honeypot hour))))
    × DistinctNames name_of (HoneypotHit.evaluate (stored ssh_flows) with_honeypot hour)
honeypot_hit-report_example =
    HoneypotReports.honeypot_hit-report (stored ssh_flows) with_honeypot hour honeypot_key

abbrev ssh_key : String
ssh_key = "admin_port_egress:de:ad:be:ef:00:01:22"

admin_port_egress-report_example :
    (find_named name_of ssh_key (AdminPortEgress.evaluate (stored ssh_flows) no_settings hour)
      ≡ AdminReports.report (
          keep
            (λ f. is_key ssh_key (AdminPortEgress.key_of f))
            ((stored ssh_flows).find_many (AdminPortEgress.selects no_settings hour))))
    × DistinctNames name_of (AdminPortEgress.evaluate (stored ssh_flows) no_settings hour)
admin_port_egress-report_example =
    AdminReports.admin_port_egress-report (stored ssh_flows) no_settings hour ssh_key

abbrev dns_key : String
dns_key = "dns_bypass:de:ad:be:ef:00:01:198.51.100.1"

dns_bypass-report_example :
    (find_named name_of dns_key (DnsBypass.evaluate (stored ssh_flows) no_settings hour)
      ≡ DnsReports.report (DnsBypass.known_resolvers no_settings) (
          keep
            (λ f. is_key dns_key (DnsBypass.key_of (DnsBypass.known_resolvers no_settings) f))
            ((stored ssh_flows).find_many (DnsBypass.selects hour))))
    × DistinctNames name_of (DnsBypass.evaluate (stored ssh_flows) no_settings hour)
dns_bypass-report_example = DnsReports.dns_bypass-report (stored ssh_flows) no_settings hour dns_key

abbrev ids_event : String → ThreatEvent
ids_event id = record {
  id = id;
  occurred_at = 5;
  src_ip = some "198.51.100.7";
  category = some "scan";
  severity = none;
}

abbrev ids_events : List ThreatEvent
ids_events = ids_event "t1" ∷ ids_event "t2" ∷ ids_event "t3" ∷ ids_event "t4" ∷ ids_event "t5" ∷ []

repeating_threat-IsOwed_example :
    ThreatReports.IsOwed no_settings "198.51.100.7"
      (keep
        (λ e. is_key "198.51.100.7" (RepeatingThreat.key_of e))
        ((stored ids_events).find_many (RepeatingThreat.selects hour)))
      (find_named name_of
        (append "repeating_threat:" "198.51.100.7")
        (RepeatingThreat.evaluate (stored ids_events) no_settings hour))
repeating_threat-IsOwed_example =
    ThreatReports.repeating_threat-IsOwed (stored ids_events) no_settings hour "198.51.100.7"

abbrev two_targets : Env
two_targets = one_variable "INTERNAL_SCAN_THRESHOLD" "1"

internal_scanning-IsOwed_example :
    ScanReports.IsOwed
      (InternalScanning.limit_of two_targets)
      (keep
        (λ f. is_key "de:ad:be:ef:00:01" (InternalScanning.key_of f))
        ((stored ssh_flows).find_many (InternalScanning.selects hour)))
      (find_named name_of
        (append "internal_scanning:" "de:ad:be:ef:00:01")
        (InternalScanning.evaluate (stored ssh_flows) two_targets hour))
internal_scanning-IsOwed_example =
    ScanReports.internal_scanning-IsOwed (stored ssh_flows) two_targets hour "de:ad:be:ef:00:01"

high_egress_volume-IsOwed_example :
    EgressReports.IsOwed
      (HighEgressVolume.limit_of no_settings)
      (keep
        (λ f. is_key "de:ad:be:ef:00:01" (HighEgressVolume.key_of f))
        ((stored ssh_flows).find_many (HighEgressVolume.selects hour)))
      (find_named name_of
        (append "high_egress_volume:" "de:ad:be:ef:00:01")
        (HighEgressVolume.evaluate (stored ssh_flows) no_settings hour))
high_egress_volume-IsOwed_example =
    EgressReports.high_egress_volume-IsOwed (stored ssh_flows) no_settings hour "de:ad:be:ef:00:01"
