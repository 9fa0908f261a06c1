-- ===== src/Topology/Connections/Reverse.antt =====
-- The connections of a pair of networks in its two directions.
use zero_proof.Base.{
  String, ◌≡◌, refl, Bool, true, false, not, ◌&&◌, Option, none, some, arith, or_else, or_option,
  is_some,
}
use zero_proof.Base.Dict.{Dict}
use zero_proof.Reachability.{Profile, WorkIsolationMode, phased, strict}
use zero_proof.Topology.{NetworkNode, EnhancedConnection}
use zero_proof.Topology.Pairs.{Pair}
use zero_proof.Topology.Connections.{
  should_be_isolated, one_sided, when, by_work_mode, connection_in, connection_between, is_iot,
  is_guest, is_work,
}

-- The same answer in two directions
abbrev pub agree : Bool → Bool → Bool
agree true b = b
agree false b = not b

or_option-cong :
    (o o' p p' : Option String)
    → is_some o ≡ is_some o'
    → is_some p ≡ is_some p'
    → is_some (or_option o p) ≡ is_some (or_option o' p')
or_option-cong o o' p p' h k = ground (arith, h, k)

when-cong :
    (b : Bool) (o o' : Option String)
    → is_some o ≡ is_some o'
    → is_some (when b o) ≡ is_some (when b o')
unfolding when
when-cong true o o' h = h
when-cong false o o' h = refl

one_sided-swap :
    (is : String → Bool) (s t u v x y : String)
    → is_some (one_sided is s t x y) ≡ is_some (one_sided is u v y x)
unfolding one_sided
one_sided-swap is s t u v x y = ground arith

by_work_mode-swap :
    (m : WorkIsolationMode) (p : Profile) (x y : String)
    → is_some (by_work_mode m p x y) ≡ is_some (by_work_mode m p y x)
unfolding by_work_mode
by_work_mode-swap strict p x y = one_sided-swap (is_work p) _ _ _ _ x y
by_work_mode-swap phased p x y = ground arith

-- A pair of networks is to be isolated in both directions or in neither.
should_be_isolated-swap :
    (p : Option Profile) (x y : String)
    → is_some (should_be_isolated p x y) ≡ is_some (should_be_isolated p y x)
unfolding should_be_isolated
should_be_isolated-swap none x y = refl
should_be_isolated-swap (some p) x y =
    or_option-cong _ _ _ _
      (when-cong (p.has_iot && p.iot_isolation) _ _ (one_sided-swap (is_iot p) _ _ _ _ x y))
      (or_option-cong _ _ _ _
        (when-cong (p.guest_network && p.guest_isolation) _ _
          (one_sided-swap (is_guest p) _ _ _ _ x y))
        (or_option-cong _ _ _ _
          (when-cong (p.work_from_home && p.work_device_isolation) _ _
            (by_work_mode-swap (or_else p.work_isolation_mode phased) p x y))
          refl))

module _ (pairs : Dict Pair) (profile : Option Profile) (a b : NetworkNode) where
  abbrev there : EnhancedConnection
  there = connection_in pairs profile a b

  abbrev back : EnhancedConnection
  back = connection_in pairs profile b a

  -- The two directions of a pair are blocked by isolation together, a connection is shown as
  -- bidirectional exactly where both directions are allowed or both are not, and of two directions
  -- that are both allowed one violates the intent exactly where the other does.
  pub connection-reverse :
      (there.blocked_by_isolation ≡ back.blocked_by_isolation)
      × (there.bidirectional ≡ agree there.allowed back.allowed)
      × (there.bidirectional ≡ back.bidirectional)
      × ((there.violates_intent && back.allowed) ≡ (back.violates_intent && there.allowed))
  unfolding connection_in connection_between
  connection-reverse = (
    ground arith,
    ground arith,
    ground arith,
    ground (arith, should_be_isolated-swap profile a.id b.id),
  )
