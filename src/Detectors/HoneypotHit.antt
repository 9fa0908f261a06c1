-- ===== src/Detectors/HoneypotHit.antt =====
-- detectors/honeypotHit.ts: flows to a configured honeypot address.
pub mod Reports
use zero_proof.Base.{
  ℕ, String, ◌≡◌, refl, Bool, true, false, ◌&&◌, ◌||◌, Option, none, some, List, [], ◌∷◌, ◌++◌, map,
  or_else, keep, any, if◌then◌else◌, str_eq, not, arith, is_nil,
}
use zero_proof.Base.Text.{is_empty, to_lower_case, trim, split, concat}
use zero_proof.Base.Dict.{values}
use zero_proof.Base.Groups.{group}
use zero_proof.Detection.{DetectionResult, DetectorContext, MetaValue, critical, in_window}
use zero_proof.Detectors.{Flow, Rows, Env, env_value, src_key, actor_of, flow_evidence}

clean : List String → List String
clean [] = []
clean (s ∷ ss) =
    let entry = to_lower_case (trim s) in if is_empty entry then clean ss else entry ∷ clean ss

unfoldable pub csv_from_env : Env → String → List String
unfolding clean
csv_from_env env name = elim (env_value env name) [ none ↦ [] | some raw ↦ clean (split b',' raw) ]

-- `dstIp: { in: ips }`, which no null column meets; an empty list is left out of the `OR`
abbrev pub one_of : List String → Option String → Bool
one_of entries none = false
one_of entries (some value) = any (str_eq value) entries

abbrev pub is_target : List String → List String → Flow → Bool
is_target ips macs f = one_of ips f.dst_ip || one_of macs f.dst_mac

pub target_of : Flow → String
target_of f = or_else f.dst_ip (or_else f.dst_mac "unknown-target")

unfoldable pub fingerprint_of : Flow → String
unfolding target_of
fingerprint_of f = concat ("honeypot_hit:" ∷ src_key f ∷ ":" ∷ target_of f ∷ [])

port_meta : Option ℕ → MetaValue
port_meta none = MetaValue.undefined
port_meta (some n) = MetaValue.num n

pub first_hit : Flow → DetectionResult
unfolding port_meta
first_hit f = record {
  fingerprint = fingerprint_of f;
  severity = critical;
  title = concat (actor_of f ∷ " touched honeypot " ∷ target_of f ∷ []);
  description =
      "A honeypot resource has no legitimate clients. This source contacted it during the window — investigate immediately.";
  remediation = none;
  affected_resource = some (actor_of f);
  src_mac = f.src_mac;
  confidence = none;
  evidence = flow_evidence f ∷ [];
  metadata = some (("target", MetaValue.text (target_of f)) ∷ ("port", port_meta f.dst_port) ∷ []);
}

-- The body of the loop: a known fingerprint gains a piece of evidence.
unfoldable pub hit : Option DetectionResult → Flow → DetectionResult
unfolding first_hit
hit none f = first_hit f
hit (some r) f = record r { evidence = r.evidence ++ flow_evidence f ∷ [] }

abbrev pub selects : Env → DetectorContext → Flow → Bool
selects env ctx f =
    in_window ctx f.occurred_at
    && is_target (csv_from_env env "HONEYPOT_IPS") (csv_from_env env "HONEYPOT_MACS") f

unfoldable pub evaluate : Rows Flow → Env → DetectorContext → List DetectionResult
evaluate rows env ctx =
    let ips = csv_from_env env "HONEYPOT_IPS" in
    let macs = csv_from_env env "HONEYPOT_MACS" in
    if is_nil ips && is_nil macs
    then []
    else values (group (λ f. some (fingerprint_of f)) hit [] (rows.find_many (selects env ctx)))
