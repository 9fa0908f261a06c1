-- ===== src/Topology/Pairs.antt =====
-- topologyAnalyzer.ts, buildConnections: what is known of each ordered pair of networks, the isolation
-- that every pair begins with, and the application of one rule to one pair.
pub mod Laws
pub mod Isolation
pub mod Start
use zero_proof.Base.{
  ◌+◌, String, append, Bool, ◌&&◌, ◌||◌, Option, none, some, List, [], ◌∷◌, ◌++◌, map, str_eq,
  if◌then◌else◌, or_else, or_option, include_all, has,
}
use zero_proof.Base.Dict.{Dict, get, set}
use zero_proof.Base.Groups.{group}
use zero_proof.Base.Text.{concat}
use zero_proof.Topology.{NetworkNode, RuleInfo, L3AclIsolation}

-- An entry of `pairRules`; its `reverseAllowed` is never set.
pub record Pair : Type 0 where
  pub forward_allowed : Option Bool
  pub rules : List RuleInfo
  pub blocked_by_isolation : Bool
  pub isolation_source : Option String

abbrev pub get_pair_key : String → String → String
get_pair_key src dst = concat (src ∷ ":" ∷ dst ∷ [])

-- The destinations that the switch blocks for a source: `l3AclBlocked`
acl_source : L3AclIsolation → Option String
acl_source i = some i.source_network

acl_blocked : List L3AclIsolation → Dict (List String)
unfolding acl_source
acl_blocked is = group acl_source (λ o i. include_all (or_else o []) i.destination_networks) [] is

pub blocked_by_acl : List L3AclIsolation → String → String → Bool
unfolding acl_blocked
blocked_by_acl is src dst = has (or_else (get (acl_blocked is) src) []) dst

-- `isolationSource` of a new pair
source_of : Bool → NetworkNode → NetworkNode → Option String
source_of acl src dst =
    if acl && (src.network_isolation || dst.network_isolation)
    then some (append "L3 ACL + " (if src.network_isolation then src.name else dst.name))
    else if acl
    then some (concat ("L3 ACL (" ∷ src.name ∷ " → " ∷ dst.name ∷ ")" ∷ []))
    else if src.network_isolation && dst.network_isolation
    then some (concat (src.name ∷ " & " ∷ dst.name ∷ []))
    else if src.network_isolation
    then some src.name
    else if dst.network_isolation
    then some dst.name
    else none

pub initial_pair : List L3AclIsolation → NetworkNode × NetworkNode → Pair
unfolding source_of
initial_pair is (src, dst) = record {
  forward_allowed = none;
  rules = [];
  blocked_by_isolation =
      src.network_isolation || dst.network_isolation || blocked_by_acl is src.id dst.id;
  isolation_source = source_of (blocked_by_acl is src.id dst.id) src dst;
}

-- The rounds of `for (const srcNet of networks) for (const dstNet of networks)`
abbrev pub pairs_from : List NetworkNode → List NetworkNode → List (NetworkNode × NetworkNode)
pairs_from [] dsts = []
pairs_from (s ∷ ss) dsts = map (λ d. (s, d)) dsts ++ pairs_from ss dsts

-- The key of a round, `none` where it goes on to the next
abbrev pub key_of : NetworkNode × NetworkNode → Option String
key_of (src, dst) = if str_eq src.id dst.id then none else some (get_pair_key src.id dst.id)

pub initial_pairs : List NetworkNode → List L3AclIsolation → Dict Pair
initial_pairs ns is = group key_of (λ o p. initial_pair is p) [] (pairs_from ns ns)

-- A rule or a policy meets a pair: whether it allows the traffic, and how it is shown.
pub record Application : Type 0 where
  pub src_id : String
  pub dst_id : String
  pub allows : Bool
  pub info : RuleInfo

-- The first rule that meets a pair decides; all of them are shown.
pub met : Pair → Application → Pair
met p a = record p {
  forward_allowed = or_option p.forward_allowed (some a.allows);
  rules = p.rules ++ a.info ∷ [];
}

put_met : Dict Pair → String → Application → Option Pair → Dict Pair
put_met m k a none = m
put_met m k a (some p) = set m k (met p a)

pub apply_one : Dict Pair → Application → Dict Pair
unfolding put_met
apply_one m a =
    if str_eq a.src_id a.dst_id
    then m
    else put_met m (get_pair_key a.src_id a.dst_id) a (get m (get_pair_key a.src_id a.dst_id))

pub apply_all : Dict Pair → List Application → Dict Pair
apply_all m [] = m
apply_all m (a ∷ later) = apply_all (apply_one m a) later
