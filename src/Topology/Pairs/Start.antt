-- ===== src/Topology/Pairs/Start.antt =====
-- The pair that two networks of a list begin with.
use zero_proof.Base.{◌≡◌, refl, ap, ◌∙◌, ◌≢◌, inr, true, ◌||◌, none, some, List, [], ◌∷◌, All}
use zero_proof.Base.Dict.{get}
use zero_proof.Base.Groups.{get-group_last, last_value-only, is_key}
use zero_proof.Topology.{NetworkNode, L3AclIsolation}
use zero_proof.Topology.Pairs.{key_of, get_pair_key, initial_pairs, initial_pair, pairs_from}
use zero_proof.Topology.Pairs.Isolation.{
  IsFound, pairs-IsPair, pairs-any, acl_lists, blocked_by_acl-lists,
}

pub get-initial_pairs :
    (ns : List NetworkNode) (acl : List L3AclIsolation) (a b : NetworkNode)
    → IsFound ns a
    → IsFound ns b
    → a.id ≢ b.id
    → get (initial_pairs ns acl) (get_pair_key a.id b.id) ≡ some (initial_pair acl (a, b))
unfolding initial_pairs
get-initial_pairs ns acl a b ha hb differ =
    get-group_last key_of (initial_pair acl) (pairs_from ns ns) (get_pair_key a.id b.id)
    ∙ last_value-only key_of (initial_pair acl) (get_pair_key a.id b.id) (initial_pair acl (a, b))
        none (pairs_from ns ns) (same_values (pairs_from ns ns) (pairs-IsPair ns a b ha hb differ))
        (inr (pairs-any ns a b ha hb differ))
  where
    same_values :
        (qs : List (NetworkNode × NetworkNode))
        → All (λ q. is_key (get_pair_key a.id b.id) (key_of q) ≡ true → q ≡ (a, b)) qs
        → All
            (λ q.
              is_key (get_pair_key a.id b.id) (key_of q) ≡ true
              → initial_pair acl q ≡ initial_pair acl (a, b))
            qs
    same_values [] h = tt
    same_values (q ∷ qs) h = (λ e. ap (initial_pair acl) (h.0 e), same_values qs h.1)

pub blocked-initial_pair :
    (acl : List L3AclIsolation) (a b : NetworkNode)
    → (initial_pair acl (a, b)).blocked_by_isolation
      ≡ (a.network_isolation || b.network_isolation || acl_lists acl a.id b.id)
unfolding initial_pair
blocked-initial_pair acl a b = rw (blocked_by_acl-lists acl a.id b.id) refl

pub undecided-initial_pair :
    (acl : List L3AclIsolation) (a b : NetworkNode)
    → (initial_pair acl (a, b)).forward_allowed ≡ none
unfolding initial_pair
undecided-initial_pair acl a b = refl
