-- ===== src/Detectors/DnsTunneling/Reports.antt =====
-- What dns_tunneling reports: a client and a parent domain with enough queries, of which at most
-- twenty-five are counted.
use zero_proof.Base.{
  ℕ, ◌*◌, ◌≤◌, ◌<◌, String, append, ◌≡◌, refl, sym, ap, ◌∙◌, inl, inr, Option, none, some, List, [],
  ◌∷◌, ◌++◌, map, arith, ltb, leb, if◌then◌else◌, Bool-cases, length, keep, ltb→lt, length-take,
  take, take_all, length-push_capped, length-map, take-push_capped,
}
use Prim.Native.Nat.{min}
use zero_proof.Base.Dict.{find_named, at_entry}
use zero_proof.Base.Groups.{is_key, absorb, find_named-collect-group}
use zero_proof.Detection.{DetectionResult, DetectorContext, Evidence, high, medium}
use zero_proof.Detectors.{Rows, Env}
use zero_proof.Detectors.Threshold.{threshold-pos}
use zero_proof.DnsAllowlist.{AllowlistSnapshot}
use mathlib.Core.List.{append-nil}
use zero_proof.Detectors.DnsTunneling.{
  DnsQuery, Entropy, Bucket, evaluate, put, finding, key_of, selects, filled, fresh_bucket,
  min_hits, query_evidence,
}

abbrev filled_by : Bucket → List DnsQuery → Bucket
filled_by b qs = record b { evidence = take 25 (b.evidence ++ map query_evidence qs) }

module _ (key : DnsQuery → Option String) where
  absorb-filled_by :
      (b : Bucket) (qs : List DnsQuery)
      → length b.evidence ≤ 25
      → absorb key put (some b) qs ≡ some (filled_by b qs)
  unfolding put
  absorb-filled_by b [] h =
      ap (λ es. some (record b { evidence = es }))
        (sym (take_all 25 b.evidence h) ∙ ap (take 25) (sym (append-nil b.evidence)))
  absorb-filled_by b (q ∷ qs) h =
      absorb-filled_by (filled b q) qs (length-push_capped 25 b.evidence (query_evidence q) h)
      ∙ ap (λ es. some (record b { evidence = es }))
          (take-push_capped 25 b.evidence (query_evidence q) (map query_evidence qs) h)

-- The evidence of some queries
abbrev pub evidence_of : List DnsQuery → List Evidence
evidence_of qs = take 25 (map query_evidence qs)

-- What the detector owes to a client and a parent domain with these queries
abbrev pub IsOwed : ℕ → List DnsQuery → Option DetectionResult → Type 0
IsOwed hits qs none = min 25 (length qs) < hits
IsOwed hits qs (some r) =
    (hits ≤ min 25 (length qs))
    × (r.severity ≡ (if leb (hits * 2) (min 25 (length qs)) then high else medium))
    × (r.evidence ≡ evidence_of qs)

counted : (qs : List DnsQuery) → length (evidence_of qs) ≡ min 25 (length qs)
counted qs = length-take 25 (map query_evidence qs) ∙ ap (min 25) (length-map query_evidence qs)

module _ (env : Env) (entropy : Entropy) where
  finding-IsOwed :
      (key : String) (qs : List DnsQuery) (b : Bucket)
      → b.evidence ≡ evidence_of qs
      → IsOwed (min_hits env) qs (finding env entropy key b)
  unfolding finding
  finding-IsOwed key qs b ev =
      let n : length b.evidence ≡ min 25 (length qs) = ap length ev ∙ counted qs in
      elim (Bool-cases (ltb (length b.evidence) (min_hits env))) [
        | inl few ↦ rw few (rw (← n) (ltb→lt _ _ few))
        | inr many ↦ rw many (rw (← n) (ground arith), rw n refl, ev)
      ]

  absorb-IsOwed :
      (of : DnsQuery → Option String) (key : String) (qs : List DnsQuery)
      → IsOwed (min_hits env) qs (at_entry (finding env entropy) key (absorb of put none qs))
  unfolding put
  absorb-IsOwed of key [] = threshold-pos env "DNS_TUNNEL_MIN_HITS" 5 (omega arith)
  absorb-IsOwed of key (q ∷ qs) =
      rw (absorb-filled_by of (fresh_bucket q) (q ∷ qs) (omega arith))
        (finding-IsOwed key (q ∷ qs) (filled_by (fresh_bucket q) (q ∷ qs)) refl)

  finding-fingerprint :
      (k : String) (b : Bucket) (r : DetectionResult)
      → finding env entropy k b ≡ some r
      → r.fingerprint ≡ append "dns_tunneling:" k
  unfolding finding
  finding-fingerprint k b r e = ground arith

  -- A client and a parent domain get a finding exactly if their queries that pass the tests, counted
  -- up to twenty-five, reach the least number of hits: HIGH from twice that number on and MEDIUM
  -- otherwise, with the first twenty-five queries as evidence.
  pub dns_tunneling-IsOwed :
      (rows : Rows DnsQuery) (allowlist : AllowlistSnapshot) (ctx : DetectorContext) (key : String)
      → IsOwed
          (min_hits env)
          (keep (λ q. is_key key (key_of env entropy allowlist q)) (rows.find_many (selects ctx)))
          (find_named
            (λ r. r.fingerprint)
            (append "dns_tunneling:" key)
            (evaluate rows env entropy allowlist ctx))
  unfolding evaluate
  dns_tunneling-IsOwed rows allowlist ctx key =
      let found = rows.find_many (selects ctx) in
      let of = key_of env entropy allowlist in
      rw
        (find_named-collect-group of put (finding env entropy) (λ r. r.fingerprint) "dns_tunneling:"
          finding-fingerprint found key)
        (absorb-IsOwed of key (keep (λ q. is_key key (of q)) found))

  not_owed :
      (qs : List DnsQuery) (o : Option DetectionResult)
      → 25 < min_hits env
      → IsOwed (min_hits env) qs o
      → o ≡ none
  not_owed qs none h owed = refl
  not_owed qs (some r) h owed = absurd (ground (arith, owed.0))

  -- Where DNS_TUNNEL_MIN_HITS is above twenty-five, no client and parent domain ever get a finding,
  -- however many queries there are.
  pub dns_tunneling-silent :
      (rows : Rows DnsQuery) (allowlist : AllowlistSnapshot) (ctx : DetectorContext) (key : String)
      → 25 < min_hits env
      → find_named
          (λ r. r.fingerprint)
          (append "dns_tunneling:" key)
          (evaluate rows env entropy allowlist ctx)
        ≡ none
  dns_tunneling-silent rows allowlist ctx key h =
      not_owed _ _ h (dns_tunneling-IsOwed rows allowlist ctx key)
