-- ===== src/Verifier/Sensor.antt =====
-- wcp_coordinator/attestation_verifier/sensor_witness.py
use worker_context_protocol.Prelude.{
  String, Bool, true, false, not, ◌||◌, Option, none, some, [], ◌∷◌, ◌==◌, if◌then◌else◌,
}
use worker_context_protocol.Json.{
  Value, null, bool, int, float, str, arr, obj, Items, nil, cons, Fields, get, has,
}
use worker_context_protocol.Json.Builtins.{as_dict, contains_text, truthy}
use worker_context_protocol.Result.{Result, ok, ◌>>=◌}
use worker_context_protocol.Verifier.Outcome.{VerificationOutcome, passed, because, fail, review}
use worker_context_protocol.Verifier.Required.{first_missing}

-- the key of a track sample that is missing
abbrev sample_missing : Fields → Option String
sample_missing f =
    if not (has "t" f)
    then some "t"
    else if not (has "x" f)
    then some "x"
    else if not (has "y" f)
    then some "y"
    else none

-- `for sample in track`
unfoldable pub check_track : Items → VerificationOutcome
check_track nil = passed
check_track (cons (obj f) rest) =
    let later = check_track rest in
    elim (sample_missing f) [
      | none ↦ later
      | some k ↦ because fail "track sample missing field: {}" (str k ∷ [])
    ]
check_track (cons _ rest) = because fail "track sample must be an object" []

-- a track that is a list with a sample in it
unfoldable pub verify_track : Value → VerificationOutcome
unfolding check_track
verify_track (arr (cons v vs)) = check_track (cons v vs)
verify_track _ = because fail "empty or missing track" []

abbrev is_null : Value → Bool
is_null null = true
is_null _ = false

-- `isinstance(v, (int, float))`
abbrev is_numeric : Value → Bool
is_numeric (int z) = true
is_numeric (float m e) = true
is_numeric (bool b) = true
is_numeric _ = false

unfoldable pub verify_weight : Value → Value → VerificationOutcome
verify_weight before after =
    if is_null before || is_null after
    then because fail "weight_delta requires before_kg and after_kg" []
    else if not (is_numeric before) || not (is_numeric after)
    then because fail "before_kg and after_kg must be numeric" []
    else passed

unfoldable pub verify_photo : Value → Value → Result VerificationOutcome
verify_photo hash_hex exif =
    if not (truthy hash_hex) || not (truthy exif)
    then ok (because fail "photo_with_exif requires photo_hash and exif" [])
    else do
      dated ← contains_text "datetime" exif
      if dated then ok passed else ok (because review "exif missing datetime" [])

unfoldable pub sensor_verify : String → Value → Result VerificationOutcome
unfolding verify_track verify_weight verify_photo first_missing
sensor_verify kind payload =
    if kind == "gps_track" || kind == "indoor_pose_track"
    then (do p ← as_dict payload; ok (verify_track (get "track" p)))
    else if kind == "weight_delta"
    then (do p ← as_dict payload; ok (verify_weight (get "before_kg" p) (get "after_kg" p)))
    else if kind == "photo_with_exif"
    then (do p ← as_dict payload; verify_photo (get "photo_hash" p) (get "exif" p))
    else if kind == "signed_sensor_recording"
    then (do
      missing ← first_missing ("recording_hash" ∷ "duration_seconds" ∷ []) payload
      ok (elim missing [
        | none ↦ passed
        | some k ↦
            because fail "signed_sensor_recording requires recording_hash and duration_seconds" []
      ]))
    else if kind == "coverage_map" || kind == "gps_stamped_checkpoint_coverage"
    then (do
      polygon ← contains_text "covered_polygon" payload
      checkpoints ← (if polygon then ok true else contains_text "checkpoints" payload)
      ok (
          if checkpoints
          then passed
          else because fail "coverage evidence requires covered_polygon or checkpoints" []))
    else ok (because fail "sensor-witness verifier: unknown kind {}" (str kind ∷ []))
