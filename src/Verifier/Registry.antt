-- ===== src/Verifier/Registry.antt =====
-- The schema registry and the dispatch by (mode, kind), of attestation_verifier/__init__.py.
use worker_context_protocol.Prelude.{
  String, Bool, List, [], ◌∷◌, ◌==◌, ◌||◌, contains, if◌then◌else◌,
}
use worker_context_protocol.Json.{Value, str, arr, obj}
use worker_context_protocol.Platform.{Platform}
use worker_context_protocol.Result.{Result, ok, err, crash}
use worker_context_protocol.Verifier.Outcome.{VerificationOutcome, because, fail}
use worker_context_protocol.Verifier.Sensor.{sensor_verify}
use worker_context_protocol.Verifier.ThirdParty.{third_party_verify}
use worker_context_protocol.Verifier.Presence.{presence_verify}
use worker_context_protocol.Verifier.OwnerSignoff.{owner_verify}

-- `dict[str, set[str]]`
abbrev pub Registry : Type 0
Registry = List (String × List String)

-- `registry.get(mode, set())`
abbrev pub kinds_of : String → Registry → List String
kinds_of mode [] = []
kinds_of mode ((m, kinds) ∷ rest) =
    let later = kinds_of mode rest in if m == mode then kinds else later

abbrev pub default_registry : Registry
default_registry =
    (
      "sensor-witness",
      "gps_track" ∷ "indoor_pose_track" ∷ "manipulator_pose_track" ∷ "weight_delta"
          ∷ "photo_with_exif" ∷ "signed_sensor_recording" ∷ "coverage_map"
          ∷ "gps_stamped_checkpoint_coverage" ∷ "thermal_image_capture_manifest" ∷ [],
    )
    ∷ (
      "third-party-witness",
      "customer_signature" ∷ "phone_app_attestation" ∷ "iot_beacon_proximity"
          ∷ "inspection_checklist_signed" ∷ [],
    )
    ∷ (
      "cryptographic-presence",
      "pose_bounded_presence_proof" ∷ "geofence_check_in_out" ∷ "cryptographic_nonce_exchange" ∷ [],
    )
    ∷ ("owner-sign-off", "self_attestation_with_waiver" ∷ "whatsapp_business_signed_link" ∷ [])
    ∷ []

-- the keys of `_DISPATCH`
abbrev pub known_mode : String → Bool
known_mode m =
    m == "sensor-witness"
    || m == "third-party-witness"
    || m == "cryptographic-presence"
    || m == "owner-sign-off"

-- `_DISPATCH[mode](kind, payload, task_payload=…)`, for a mode that is a key
unfoldable pub dispatch_mode :
    Platform → String → String → Value → Value → Result VerificationOutcome
dispatch_mode py mode kind payload task_payload =
    if mode == "sensor-witness"
    then sensor_verify kind payload
    else if mode == "third-party-witness"
    then third_party_verify py kind payload
    else if mode == "cryptographic-presence"
    then presence_verify py kind payload task_payload
    else owner_verify kind payload task_payload

-- the test of the kind, and the call
unfoldable pub verify_kind :
    Platform → Registry → String → Value → Value → Value → Result VerificationOutcome
verify_kind py registry mode (str kind) payload task_payload =
    if contains (kinds_of mode registry) kind
    then dispatch_mode py mode kind payload task_payload
    else ok (because fail "kind {!r} not registered for mode {!r}" (str kind ∷ str mode ∷ []))
verify_kind py registry mode (arr xs) payload task_payload = err crash
verify_kind py registry mode (obj f) payload task_payload = err crash
verify_kind py registry mode kind payload task_payload =
    ok (because fail "kind {!r} not registered for mode {!r}" (kind ∷ str mode ∷ []))

-- Looking an unhashable mode or kind up in a dict or a set is a TypeError.
unfoldable pub verify_single :
    Platform → Registry → Value → Value → Value → Value → Result VerificationOutcome
unfolding verify_kind
verify_single py registry (str mode) kind payload task_payload =
    if known_mode mode
    then verify_kind py registry mode kind payload task_payload
    else ok (because fail "unknown mode: {}" (str mode ∷ []))
verify_single py registry (arr xs) kind payload task_payload = err crash
verify_single py registry (obj f) kind payload task_payload = err crash
verify_single py registry mode kind payload task_payload =
    ok (because fail "unknown mode: {}" (mode ∷ []))
