-- ===== src/Detectors/DnsTunneling.antt =====
-- detectors/dnsTunneling.ts: one client sends long, irregular queries to one parent domain. The
-- Shannon entropy of a text is a real number, so the test `shannonEntropy(domain) < minEntropy` is a
-- parameter, with the limit as it is printed.
pub mod Reports
use zero_proof.Base.{
  ℕ, ◌*◌, String, append, Bool, ◌||◌, Option, none, some, List, [], ◌∷◌, ltb, leb, if◌then◌else◌,
  or_else, length, push_capped,
}
use zero_proof.Base.Text.{concat, show, to_lower_case, without_final_dot, split, join, is_empty}
use zero_proof.Base.Dict.{collect}
use zero_proof.Base.Groups.{group}
use zero_proof.Detection.{
  DetectorContext, Evidence, DetectionResult, in_window, high, medium, MetaValue,
}
use zero_proof.Detectors.{Rows, Env, is_blank}
use zero_proof.Detectors.Threshold.{threshold}
use zero_proof.DnsAllowlist.{AllowlistSnapshot, is_allowlisted}
use Prim.Native.String.{count}

-- The columns of `dnsQueryEvent` that the detector selects
pub record DnsQuery : Type 0 where
  pub id : String
  pub queried_at : ℕ
  pub domain : String
  pub client_ip : Option String
  pub client_name : Option String

pub record Entropy : Type 0 where
  pub is_low : String → Bool
  pub limit_text : String

last_two : List String → List String
last_two [] = []
last_two (a ∷ []) = a ∷ []
last_two (a ∷ b ∷ []) = a ∷ b ∷ []
last_two (a ∷ b ∷ c ∷ ps) = last_two (b ∷ c ∷ ps)

pub parent_domain : String → String
unfolding last_two
parent_domain domain = join "." (last_two (split b'.' (without_final_dot (to_lower_case domain))))

abbrev pub min_length : Env → ℕ
min_length env = threshold env "DNS_TUNNEL_MIN_LENGTH" 50

abbrev pub min_hits : Env → ℕ
min_hits env = threshold env "DNS_TUNNEL_MIN_HITS" 5

-- `q.clientIp` behind the guard
abbrev pub ip_of : DnsQuery → String
ip_of q = or_else q.client_ip ""

pub key_of : Env → Entropy → AllowlistSnapshot → DnsQuery → Option String
key_of env entropy allowlist q =
    if is_empty q.domain || is_blank q.client_ip
    then none
    else if ltb (count q.domain) (min_length env)
    then none
    else if entropy.is_low q.domain
    then none
    else if is_allowlisted (parent_domain q.domain) q.client_ip allowlist
    then none
    else some (concat (ip_of q ∷ ":" ∷ parent_domain q.domain ∷ []))

pub record Bucket : Type 0 where
  pub evidence : List Evidence
  pub actor : String
  pub client_ip : String
  pub parent : String

abbrev pub fresh_bucket : DnsQuery → Bucket
fresh_bucket q = record {
  evidence = [];
  actor = or_else q.client_name (ip_of q);
  client_ip = ip_of q;
  parent = parent_domain q.domain;
}

abbrev pub query_evidence : DnsQuery → Evidence
query_evidence q = Evidence.dns_query q.id

abbrev pub filled : Bucket → DnsQuery → Bucket
filled b q = record b { evidence = push_capped 25 b.evidence (query_evidence q) }

pub put : Option Bucket → DnsQuery → Bucket
put o q = filled (or_else o (fresh_bucket q)) q

pub finding : Env → Entropy → String → Bucket → Option DetectionResult
finding env entropy key b =
    let queries = length b.evidence in
    if ltb queries (min_hits env)
    then none
    else some (record {
      fingerprint = append "dns_tunneling:" key;
      severity = if leb (min_hits env * 2) queries then high else medium;
      title = concat (
          b.actor
          ∷ " sent "
          ∷ show queries
          ∷ " long high-entropy DNS queries to *."
          ∷ b.parent
          ∷ []);
      description = concat (
          "Repeated suspiciously-shaped DNS queries (length ≥ "
          ∷ show (min_length env)
          ∷ ", entropy ≥ "
          ∷ entropy.limit_text
          ∷ " bits/char) — characteristic of DNS-tunneling exfiltration."
          ∷ []);
      remediation = none;
      affected_resource = some b.actor;
      src_mac = none;
      confidence = none;
      evidence = b.evidence;
      metadata = some (
          ("parentDomain", MetaValue.text b.parent)
          ∷ ("clientIp", MetaValue.text b.client_ip)
          ∷ ("queryCount", MetaValue.num queries)
          ∷ []);
    })

abbrev pub selects : DetectorContext → DnsQuery → Bool
selects ctx q = in_window ctx q.queried_at

pub evaluate :
    Rows DnsQuery → Env → Entropy → AllowlistSnapshot → DetectorContext → List DetectionResult
evaluate rows env entropy allowlist ctx =
    collect (finding env entropy)
      (group (key_of env entropy allowlist) put [] (rows.find_many (selects ctx)))
