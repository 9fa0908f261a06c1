-- ===== src/Tests/Dns.antt =====
-- A client that tunnels, and an allowlist with an entry for it.
use zero_proof.Base.{
  append, ◌≡◌, refl, false, ◌&&◌, ◌||◌, none, some, List, [], ◌∷◌, arith, keep, any,
}
use zero_proof.Base.Dict.{find_named}
use zero_proof.Base.Groups.{is_key}
use zero_proof.Base.Text.{to_lower_case, without_final_dot}
use zero_proof.Detectors.{Env}
use zero_proof.DnsAllowlist.{
  BuiltInCategory, UserEntry, AllowlistSnapshot, is_allowlisted, load_allowlist_snapshot, device,
}
use zero_proof.DnsAllowlist.Coverage.{is_allowlisted-covers, by_built_ins, covers, holds_for}
use zero_proof.Detectors.DnsTunneling.{DnsQuery, Entropy, evaluate, key_of, min_hits, selects}
use zero_proof.Detectors.DnsTunneling.Reports.{dns_tunneling-IsOwed, dns_tunneling-silent, IsOwed}
use zero_proof.Tests.{stored, one_variable, hour}

abbrev trackers : List BuiltInCategory
trackers = record { id = "cdn"; label = "CDN"; domains = "fbcdn.net" ∷ "a2z.com" ∷ [] } ∷ []

abbrev frame_entry : UserEntry
frame_entry = record {
  parent_domain = "Weirdsite.com";
  scope = device;
  device_key = "192.168.2.148";
}

abbrev by_users : List UserEntry
by_users = frame_entry ∷ []

is_allowlisted-covers_example :
    is_allowlisted "img.weirdsite.com."
      (some "192.168.2.148")
      (load_allowlist_snapshot trackers ("cdn:a2z.com" ∷ []) by_users)
    ≡ (by_built_ins
          (covers (without_final_dot (to_lower_case "img.weirdsite.com.")))
          trackers
          ("cdn:a2z.com" ∷ [])
        || any
            (λ e.
              holds_for (some "192.168.2.148") e
              && covers
                  (without_final_dot (to_lower_case "img.weirdsite.com."))
                  (to_lower_case e.parent_domain))
            by_users)
is_allowlisted-covers_example =
    is_allowlisted-covers trackers ("cdn:a2z.com" ∷ []) by_users "img.weirdsite.com."
      (some "192.168.2.148")

abbrev long_query : DnsQuery
long_query = record {
  id = "q1";
  queried_at = 1000;
  domain = "aGVsbG8gd29ybGQgdGhpcyBpcyBhIHR1bm5lbCBwYXlsb2Fk.evil.example";
  client_ip = some "10.0.0.7";
  client_name = none;
}

abbrev irregular : Entropy
irregular = record { is_low = λ s. false; limit_text = "3.5" }

abbrev many_hits : Env
many_hits = one_variable "DNS_TUNNEL_MIN_HITS" "40"

abbrev nothing_allowed : AllowlistSnapshot
nothing_allowed = record { global_domains = []; device_domains = [] }

abbrev queries : List DnsQuery
queries = long_query ∷ long_query ∷ []

dns_tunneling-IsOwed_example :
    IsOwed
      (min_hits many_hits)
      (keep
        (λ q. is_key "10.0.0.7:evil.example" (key_of many_hits irregular nothing_allowed q))
        ((stored queries).find_many (selects hour)))
      (find_named
        (λ r. r.fingerprint)
        (append "dns_tunneling:" "10.0.0.7:evil.example")
        (evaluate (stored queries) many_hits irregular nothing_allowed hour))
dns_tunneling-IsOwed_example =
    dns_tunneling-IsOwed many_hits irregular (stored queries) nothing_allowed hour
      "10.0.0.7:evil.example"

forty_hits : min_hits many_hits ≡ 40
unfolding zero_proof.Detectors.Threshold.threshold zero_proof.Base.Text.number
forty_hits = refl

dns_tunneling-silent_example :
    find_named
      (λ r. r.fingerprint)
      (append "dns_tunneling:" "10.0.0.7:evil.example")
      (evaluate (stored queries) many_hits irregular nothing_allowed hour)
    ≡ none
dns_tunneling-silent_example =
    dns_tunneling-silent many_hits irregular (stored queries) nothing_allowed hour
      "10.0.0.7:evil.example" (rw forty_hits (omega arith))
