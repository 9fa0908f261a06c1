-- ===== src/Topology/Pairs/Isolation.antt =====
-- The isolation that a pair of networks begins with, where ids are distinct and have no colon.
use zero_proof.Base.{
  String, ◌≡◌, refl, ap, ◌∙◌, inl, inr, Bool, true, ◌&&◌, ◌||◌, Option, none, some, List, [], ◌∷◌,
  map, arith, str_eq, eq_iff, Bool-cases, or_else, All, keep, any, has, All-append, include_all,
  any-include_all, ◌≢◌, ◌++◌, eq_refl, false,
}
use zero_proof.Base.Dict.{get, find_named, DistinctNames}
use zero_proof.Base.Groups.{is_key, get-group, absorb}
use zero_proof.Topology.{NetworkNode, L3AclIsolation}
use zero_proof.Topology.Pairs.Laws.{is_plain, get_pair_key-inj}
use zero_proof.Topology.Pairs.{key_of, pairs_from, blocked_by_acl, acl_source, get_pair_key}

-- Some isolation has the source and, among its destinations, the destination.
abbrev pub acl_lists : List L3AclIsolation → String → String → Bool
acl_lists is src dst = any (λ i. str_eq i.source_network src && has i.destination_networks dst) is

has-absorb :
    (is : List L3AclIsolation) (src dst : String) (o : Option (List String))
    → has
        (or_else
          (absorb acl_source
            (λ p i. include_all (or_else p []) i.destination_networks)
            o
            (keep (λ i. is_key src (acl_source i)) is))
          [])
        dst
      ≡ (has (or_else o []) dst || acl_lists is src dst)
unfolding acl_source
has-absorb [] src dst o = ground arith
has-absorb (i ∷ is) src dst o = elim (Bool-cases (str_eq i.source_network src)) [
  | inl own ↦ rw own (
      ground (
        arith,
        has-absorb is src dst (some (include_all (or_else o []) i.destination_networks)),
        any-include_all (λ x. str_eq x dst) (or_else o []) i.destination_networks,
      ))
  | inr other ↦ rw other (has-absorb is src dst o)
]

pub blocked_by_acl-lists :
    (is : List L3AclIsolation) (src dst : String) → blocked_by_acl is src dst ≡ acl_lists is src dst
unfolding blocked_by_acl get
blocked_by_acl-lists is src dst =
    ap (λ o. has (or_else o []) dst)
      (get-group acl_source (λ p i. include_all (or_else p []) i.destination_networks) [] is src)
    ∙ has-absorb is src dst none

-- The only network with its id is the one that is found by it.
abbrev IsOnly : NetworkNode → NetworkNode → Type 0
IsOnly a n = n.id ≡ a.id → n ≡ a

none-named :
    (a : NetworkNode) (ns : List NetworkNode)
    → find_named (λ n. n.id) a.id ns ≡ none
    → All (IsOnly a) ns
none-named a [] h = tt
none-named a (n ∷ ns) h = elim (Bool-cases (str_eq n.id a.id)) [
  | inl same ↦ absurd (ground (arith, h))
  | inr other ↦ (λ e. absurd (ground (arith, eq_iff n.id a.id)), none-named a ns (rw other at h))
]

pub found-IsOnly :
    (a : NetworkNode) (ns : List NetworkNode)
    → find_named (λ n. n.id) a.id ns ≡ some a
    → DistinctNames (λ n. n.id) ns
    → All (IsOnly a) ns
found-IsOnly a [] h u = tt
found-IsOnly a (n ∷ ns) h u = elim (Bool-cases (str_eq n.id a.id)) [
  | inl same ↦
      let e : n ≡ a = ground (arith, h) in (λ p. e, none-named a ns (rw (← ap (λ m. m.id) e) u.0))
  | inr other ↦
      (λ e. absurd (ground (arith, eq_iff n.id a.id)), found-IsOnly a ns (rw other at h) u.1)
]

pub found-any :
    (a : NetworkNode) (ns : List NetworkNode)
    → find_named (λ n. n.id) a.id ns ≡ some a
    → any (λ n. str_eq n.id a.id) ns ≡ true
found-any a [] h = cc
found-any a (n ∷ ns) h = elim (Bool-cases (str_eq n.id a.id)) [
  | inl same ↦ rw same refl
  | inr other ↦ rw other (found-any a ns (rw other at h))
]

module _ {ℓ κ} (P : NetworkNode → Type ℓ) (Q : NetworkNode → Type κ) where
  abbrev pub Both : NetworkNode × NetworkNode → Type (ℓ ⊔ κ)
  Both q = P q.0 × Q q.1

  All-row :
      (s : NetworkNode) (ds : List NetworkNode) → P s → All Q ds → All Both (map (λ d. (s, d)) ds)
  All-row s [] p h = tt
  All-row s (d ∷ ds) p h = ((p, h.0), All-row s ds p h.1)

  pub All-pairs_from :
      (ss ds : List NetworkNode) → All P ss → All Q ds → All Both (pairs_from ss ds)
  All-pairs_from [] ds h k = tt
  All-pairs_from (s ∷ ss) ds h k =
      All-append Both (map (λ d. (s, d)) ds) (pairs_from ss ds) (All-row s ds h.0 k)
        (All-pairs_from ss ds h.1 k)

module _ (test : NetworkNode × NetworkNode → Bool) (a b : NetworkNode)
    (holds : (x y : NetworkNode)
      → str_eq x.id a.id ≡ true
      → str_eq y.id b.id ≡ true
      → test (x, y) ≡ true) where
  any-row :
      (s : NetworkNode) (ds : List NetworkNode) (more : List (NetworkNode × NetworkNode))
      → str_eq s.id a.id ≡ true
      → any (λ n. str_eq n.id b.id) ds ≡ true
      → any test (map (λ d. (s, d)) ds ++ more) ≡ true
  any-row s [] more p h = cc
  any-row s (d ∷ ds) more p h = elim (Bool-cases (str_eq d.id b.id)) [
    | inl same ↦ rw (holds s d p same) refl
    | inr other ↦ ground (arith, any-row s ds more p (rw other at h))
  ]

  any-later :
      (xs more : List (NetworkNode × NetworkNode))
      → any test more ≡ true
      → any test (xs ++ more) ≡ true
  any-later [] more h = h
  any-later (x ∷ xs) more h = ground (arith, any-later xs more h)

  pub any-pairs_from :
      (ss ds : List NetworkNode)
      → any (λ n. str_eq n.id a.id) ss ≡ true
      → any (λ n. str_eq n.id b.id) ds ≡ true
      → any test (pairs_from ss ds) ≡ true
  any-pairs_from [] ds h k = cc
  any-pairs_from (s ∷ ss) ds h k = elim (Bool-cases (str_eq s.id a.id)) [
    | inl same ↦ any-row s ds (pairs_from ss ds) same k
    | inr other ↦
        any-later (map (λ d. (s, d)) ds) (pairs_from ss ds) (any-pairs_from ss ds (rw other at h) k)
  ]

-- The list has the network, and its ids are distinct and plain.
pub record IsFound (ns : List NetworkNode) (a : NetworkNode) : Type 0 where
  pub found : find_named (λ n. n.id) a.id ns ≡ some a
  pub distinct : DistinctNames (λ n. n.id) ns
  pub plain : All (λ n. is_plain n.id ≡ true) ns

pub IsFound-plain : (a : NetworkNode) (ns : List NetworkNode) → IsFound ns a → is_plain a.id ≡ true
IsFound-plain a ns h = plain_at ns h.found h.plain
  where
    plain_at :
        (ns : List NetworkNode)
        → find_named (λ n. n.id) a.id ns ≡ some a
        → All (λ n. is_plain n.id ≡ true) ns
        → is_plain a.id ≡ true
    plain_at [] h k = cc
    plain_at (n ∷ ns) h k = elim (Bool-cases (str_eq n.id a.id)) [
      | inl same ↦ rw (← (eq_iff n.id a.id).0 same) k.0
      | inr other ↦ plain_at ns (rw other at h) k.1
    ]

-- Of all pairs of networks only one has the key of two distinct networks, and it is there.
module _ (ns : List NetworkNode) (a b : NetworkNode) (ha : IsFound ns a) (hb : IsFound ns b)
    (differ : a.id ≢ b.id) where
  abbrev pub key : String
  key = get_pair_key a.id b.id

  abbrev pub IsPair : NetworkNode × NetworkNode → Type 0
  IsPair q = is_key key (key_of q) ≡ true → q ≡ (a, b)

  only_key : (x y : NetworkNode) → is_plain x.id ≡ true → IsOnly a x → IsOnly b y → IsPair (x, y)
  only_key x y p ox oy h = elim (Bool-cases (str_eq x.id y.id)) [
    | inl same ↦ cc (rw same at h)
    | inr other ↦
        let e : get_pair_key x.id y.id ≡ key = (eq_iff _ _).0 (rw other at h) in
        let (p', q') = get_pair_key-inj x.id y.id a.id b.id p (IsFound-plain a ns ha) e in
        rw (ox p', oy q') refl
  ]

  pairs-IsPair_at :
      (qs : List (NetworkNode × NetworkNode))
      → All (Both (λ x. (is_plain x.id ≡ true) × IsOnly a x) (IsOnly b)) qs
      → All IsPair qs
  pairs-IsPair_at [] h = tt
  pairs-IsPair_at ((x, y) ∷ qs) h = (only_key x y h.0.0.0 h.0.0.1 h.0.1, pairs-IsPair_at qs h.1)

  zipped :
      (xs : List NetworkNode)
      → All (λ x. is_plain x.id ≡ true) xs
      → All (IsOnly a) xs
      → All (λ x. (is_plain x.id ≡ true) × IsOnly a x) xs
  zipped [] h k = tt
  zipped (x ∷ xs) h k = ((h.0, k.0), zipped xs h.1 k.1)

  pub pairs-IsPair : All IsPair (pairs_from ns ns)
  pairs-IsPair = pairs-IsPair_at (pairs_from ns ns) (
      All-pairs_from (λ x. (is_plain x.id ≡ true) × IsOnly a x) (IsOnly b) ns ns
        (zipped ns ha.plain (found-IsOnly a ns ha.found ha.distinct))
        (found-IsOnly b ns hb.found hb.distinct))

  ids_differ : str_eq a.id b.id ≡ false
  ids_differ = ground (arith, eq_iff a.id b.id)

  pub pairs-any : any (λ q. is_key key (key_of q)) (pairs_from ns ns) ≡ true
  pairs-any =
      any-pairs_from (λ q. is_key key (key_of q)) a b
        (λ x y p q. rw ((eq_iff x.id a.id).0 p, (eq_iff y.id b.id).0 q, ids_differ) (eq_refl key))
        ns ns (found-any a ns ha.found) (found-any b ns hb.found)
