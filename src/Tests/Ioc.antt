-- ===== src/Tests/Ioc.antt =====
-- Three flows in pages of two, one DNS query, and an indicator for one address.
use zero_proof.Base.{
  String, ◌≡◌, refl, Bool, true, false, none, some, List, [], ◌∷◌, arith, keep, take,
}
use Prim.Native.String.{compare}
use Prim.Native.Nat.{Ordering}
use zero_proof.Detection.{Evidence}
use zero_proof.Detectors.Paging.{PagedQuery, fold_rows, Ascending}
use zero_proof.Detectors.ThreatIntel.{Hit}
use zero_proof.Detectors.Identity.{Platform}
use zero_proof.Detectors.IocMatch.Evaluate.{FlowRow, DnsRow, evaluate}
use zero_proof.Detectors.IocMatch.Evaluate.Visits.{evaluate-visits, plain_flow, plain_query}
use zero_proof.Detectors.IocMatch.Evaluate.{Found}
use zero_proof.Detectors.IocMatch.Evaluate.Counted.{evaluate-AllCounted, AllCounted}
use zero_proof.Tests.{stored}

abbrev pub platform : Platform
platform = record {
  is_ip = λ s. 4;
  url_host = λ s. s;
  stringify = λ ts. "";
  sha256_hex = λ s. s;
  to_iso = λ t. "2024-01-01T00:00:00.000Z";
}

abbrev pub greater : String → String → Bool
greater a b = elim (compare a b) [ Ordering.gt ↦ true | _ ↦ false ]

-- A table in memory, read in pages of two
abbrev pub in_memory :
    {A : Type 0} → (id : A → String) → (rows : List A) → Ascending greater id rows → PagedQuery A
in_memory id rows ordered = record {
  id = id;
  greater = greater;
  size = 2;
  rows = rows;
  find_many = λ o. elim o [
    | none ↦ take 2 rows
    | some cursor ↦ take 2 (keep (λ a. greater (id a) cursor) rows)
  ];
  size-positive = omega arith;
  first-page = refl;
  next-page = λ cursor. refl;
  ordered = ordered;
}

abbrev flow_row : (id dst_ip : String) → FlowRow
flow_row id dst_ip = record {
  id = id;
  connection_id = some "c1";
  scope_id = some "site";
  occurred_at = 1000;
  src_mac = none;
  src_ip = some "10.0.0.7";
  src_client_name = none;
  dst_ip = some dst_ip;
}

abbrev flow_rows : List FlowRow
flow_rows =
    flow_row "f1" "203.0.113.9" ∷ flow_row "f2" "198.51.100.1" ∷ flow_row "f3" "203.0.113.9" ∷ []

abbrev dns_rows : List DnsRow
dns_rows =
    record {
      id = "q1";
      connection_id = some "c2";
      queried_at = 2000;
      domain = "example.org";
      client_ip = some "10.0.0.7";
      client_name = none;
    }
    ∷ []

abbrev bad_address : Hit
bad_address = record {
  feed = "feed";
  kind = "ip";
  value = "203.0.113.9";
  category = some "malware-c2";
  severity = none;
}

abbrev flow_query : PagedQuery FlowRow
flow_query =
    in_memory (λ f. f.id) flow_rows
      (refl, ((refl, refl), ((refl, refl), tt)), (refl, ((refl, refl), tt), (refl, tt, tt)))

abbrev dns_query : PagedQuery DnsRow
dns_query = in_memory (λ q. q.id) dns_rows (refl, tt, tt)

abbrev pub evidence_key : Evidence → String
evidence_key (Evidence.flow id) = id
evidence_key (Evidence.ioc value feed) = feed
evidence_key _ = ""

evaluate-visits_example :
    evaluate platform evidence_key (stored (bad_address ∷ [])) 4 flow_query dns_query
    ≡ some (
        fold_rows
          (plain_query platform evidence_key (stored (bad_address ∷ [])))
          (fold_rows
            (plain_flow platform evidence_key (stored (bad_address ∷ [])))
            (some [])
            flow_rows)
          dns_rows)
evaluate-visits_example =
    evaluate-visits platform evidence_key (stored (bad_address ∷ [])) 4 flow_query dns_query
      (omega arith) (omega arith)

evaluate-AllCounted_example :
    (found : Found) × (evaluate platform evidence_key
        (stored (bad_address ∷ []))
        4
        flow_query
        dns_query
      ≡ some found)
    × AllCounted platform evidence_key (stored (bad_address ∷ [])) found
evaluate-AllCounted_example =
    evaluate-AllCounted platform evidence_key (stored (bad_address ∷ [])) 4 flow_query dns_query
      (omega arith) (omega arith)
