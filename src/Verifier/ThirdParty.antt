-- ===== src/Verifier/ThirdParty.antt =====
-- wcp_coordinator/attestation_verifier/third_party_witness.py
use worker_context_protocol.Prelude.{String, none, some, [], ◌∷◌, ◌==◌, if◌then◌else◌}
use worker_context_protocol.Json.{Value, str}
use worker_context_protocol.Json.Builtins.{as_str, index}
use worker_context_protocol.Platform.{Platform}
use worker_context_protocol.Result.{Result, ok, ◌>>=◌}
use worker_context_protocol.Verifier.Outcome.{VerificationOutcome, passed, because, fail}
use worker_context_protocol.Verifier.Required.{first_missing}

-- the text must be more than white space
unfoldable pub verify_signed_text : Platform → Value → Result VerificationOutcome
verify_signed_text py payload = do
  signed_text ← as_str (← index "signed_text" payload)
  ok (if py.strip signed_text == "" then because fail "signed_text is empty" [] else passed)

unfoldable pub third_party_verify : Platform → String → Value → Result VerificationOutcome
unfolding first_missing verify_signed_text
third_party_verify py kind payload =
    if kind == "customer_signature"
    then (do
      missing ← first_missing ("signed_text" ∷ "signature_image_hash" ∷ []) payload
      elim missing [
        | some k ↦ ok (because fail "customer_signature missing field: {}" (str k ∷ []))
        | none ↦ verify_signed_text py payload
      ])
    else if kind == "phone_app_attestation"
    then (do
      missing ← first_missing ("attesting_app_did" ∷ "attestation_payload_hash" ∷ []) payload
      ok (elim missing [
        | some k ↦ because fail "phone_app_attestation missing field: {}" (str k ∷ [])
        | none ↦ passed
      ]))
    else if kind == "iot_beacon_proximity"
    then (do
      missing ← first_missing ("beacon_id" ∷ "rssi" ∷ "observed_at" ∷ []) payload
      ok (elim missing [
        | some k ↦ because fail "iot_beacon_proximity missing field: {}" (str k ∷ [])
        | none ↦ passed
      ]))
    else ok (because fail "third-party-witness verifier: unknown kind {}" (str kind ∷ []))
