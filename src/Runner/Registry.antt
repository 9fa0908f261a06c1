-- ===== src/Runner/Registry.antt =====
-- detectors/registry.ts: the map of registered detectors, keyed by id.
pub mod Laws
use zero_proof.Base.{ℕ, String, Bool, false, Option, none, some, List, [], ◌==◌, if◌then◌else◌}
use zero_proof.Base.Dict.{Dict, get, set, remove, values}
use zero_proof.Runner.{Detector}

abbrev pub Registry : Type 0 → Type 0
Registry S = Dict (Detector S)

module _ {S : Type 0} where
  -- `registerDetector`, without the function it returns
  pub register_detector : Registry S → Detector S → Registry S
  register_detector reg d = set reg d.id d

  is_object : Option (Detector S) → ℕ → Bool
  is_object none o = false
  is_object (some d) o = d.object == o

  -- The function that `registerDetector(d)` returns, run on a later registry
  pub unregister_detector : Registry S → Detector S → Registry S
  unfolding is_object
  unregister_detector reg d = if is_object (get reg d.id) d.object then remove reg d.id else reg

  pub get_detector : Registry S → String → Option (Detector S)
  get_detector reg id = get reg id

  pub list_detectors : Registry S → List (Detector S)
  list_detectors reg = values reg

  -- The registries that calls produce
  pub data IsReached : Registry S → Type 0 where
    booted : IsReached []
    registered :
        (reg : Registry S) (d : Detector S) → IsReached reg → IsReached (register_detector reg d)
    unregistered :
        (reg : Registry S) (d : Detector S) → IsReached reg → IsReached (unregister_detector reg d)
