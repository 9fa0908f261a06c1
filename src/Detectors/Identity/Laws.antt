-- ===== src/Detectors/Identity/Laws.antt =====
-- createDetectorIdentity: an event with an id has an identity.
use zero_proof.Base.{String, ◌≡◌, refl, false, Option, none, some}
use zero_proof.Base.Text.{trim, is_empty}
use zero_proof.Detectors.Identity.{
  Platform, DetectorIdentity, DetectorIdentityInput, create_detector_identity, trimmed,
  identity_with,
}

identified :
    (platform : Platform) (i : DetectorIdentityInput) (o : Option String) (event : String)
    → o ≡ some event
    → (identity : DetectorIdentity) × (identity_with platform i o ≡ some identity)
unfolding identity_with
identified platform i none event e = absurd (cc)
identified platform i (some named) event e = (_, refl)

pub create_detector_identity-named :
    (platform : Platform) (i : DetectorIdentityInput)
    → is_empty (trim i.event_id) ≡ false
    → (identity : DetectorIdentity) × (create_detector_identity platform i ≡ some identity)
unfolding create_detector_identity trimmed
create_detector_identity-named platform i named =
    identified platform i (trimmed (some i.event_id)) (trim i.event_id) (rw named refl)
