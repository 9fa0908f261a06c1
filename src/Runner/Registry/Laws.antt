-- ===== src/Runner/Registry/Laws.antt =====
-- The registry keeps one detector for each id, and a stale unregister function does nothing.
use zero_proof.Base.{
  String, ◌≡◌, refl, ◌≢◌, inl, inr, true, false, none, some, arith, str_eq, eq_refl, if◌then◌else◌,
  Bool-cases, All,
}
use zero_proof.Base.Dict.{
  get, set, get-set, get-remove, Unique, set-Unique, remove-Unique, IsNamed, set-All, remove-All,
  find_named, DistinctNames, find_named-values, values-DistinctNames,
}
use zero_proof.Runner.{Detector}
use zero_proof.Runner.Registry.{
  booted, registered, unregistered, is_object, IsReached, Registry, get_detector, register_detector,
  list_detectors, unregister_detector, IsReached, is_object, registered, unregistered,
}

module _ {S : Type 0} where
  same-object : (d : Detector S) → is_object (some d) d.object ≡ true
  unfolding is_object
  same-object d = ground arith

  other-object : (d d' : Detector S) → d'.object ≢ d.object → is_object (some d') d.object ≡ false
  unfolding is_object
  other-object d d' ne = ground arith

  -- After the function that `registerDetector(d)` returned has run, the id of `d` has no detector and
  -- every other id has the one that it had.
  pub unregister-register :
      (reg : Registry S) (d : Detector S) (id : String)
      → get_detector (unregister_detector (register_detector reg d) d) id
        ≡ (if str_eq d.id id then none else get_detector reg id)
  unfolding get_detector unregister_detector register_detector is_object
  unregister-register reg d id =
      let own : is_object (get (set reg d.id d) d.id) d.object ≡ true =
        rw (get-set reg d.id d.id d) (rw (eq_refl d.id) (same-object d)) in
      rw own (rw (get-remove (set reg d.id d) d.id id) (ground (arith, get-set reg d.id id d)))

  -- Once another object is registered under the same id, the function that an earlier registration
  -- returned leaves the registry as it is.
  pub unregister-replaced :
      (reg : Registry S) (d d' : Detector S)
      → d'.id ≡ d.id
      → d'.object ≢ d.object
      → unregister_detector (register_detector reg d') d ≡ register_detector reg d'
  unfolding unregister_detector register_detector is_object
  unregister-replaced reg d d' e ne =
      let other : is_object (get (set reg d'.id d') d.id) d.object ≡ false =
        rw (get-set reg d'.id d.id d') (rw e (rw (eq_refl d.id) (other-object d d' ne))) in
      rw other refl

  IsSound : Registry S → Type 0
  IsSound reg = Unique reg × All (IsNamed Detector.id) reg

  reached-IsSound : (reg : Registry S) → IsReached reg → IsSound reg
  unfolding IsSound register_detector unregister_detector
  reached-IsSound _ booted = (tt, tt)
  reached-IsSound _ (registered reg d h) =
      let (u, a) = reached-IsSound reg h in
      (set-Unique reg d.id d u, set-All (IsNamed Detector.id) reg d.id d a refl)
  reached-IsSound _ (unregistered reg d h) =
      let (u, a) = reached-IsSound reg h in
      elim (Bool-cases (is_object (get reg d.id) d.object)) [
        | inl own ↦ rw own (remove-Unique reg d.id u, remove-All (IsNamed Detector.id) reg d.id a)
        | inr other ↦ rw other (u, a)
      ]

  -- In every registry that calls produce, the list has each id once, and the detector that it has
  -- under an id is the one that `getDetector` returns.
  pub list_detectors-once :
      (reg : Registry S)
      → IsReached reg
      → DistinctNames Detector.id (list_detectors reg)
        × ((id : String) → find_named Detector.id id (list_detectors reg) ≡ get_detector reg id)
  unfolding list_detectors get_detector IsSound
  list_detectors-once reg h =
      let (u, a) = reached-IsSound reg h in
      (values-DistinctNames Detector.id reg a u, λ id. find_named-values Detector.id reg id a)
