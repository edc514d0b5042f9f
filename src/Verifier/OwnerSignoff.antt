-- ===== src/Verifier/OwnerSignoff.antt =====
-- wcp_coordinator/attestation_verifier/owner_signoff.py
use worker_context_protocol.Prelude.{String, none, some, [], ◌∷◌, ◌==◌, not, if◌then◌else◌}
use worker_context_protocol.Json.{Value, str, get}
use worker_context_protocol.Json.Builtins.{as_dict, truthy}
use worker_context_protocol.Result.{Result, ok, ◌>>=◌}
use worker_context_protocol.Verifier.Outcome.{VerificationOutcome, passed, because, fail}
use worker_context_protocol.Verifier.Required.{first_missing}

unfoldable pub owner_verify : String → Value → Value → Result VerificationOutcome
unfolding first_missing
owner_verify kind payload task_payload =
    if kind == "whatsapp_business_signed_link"
    then (do
      missing ← first_missing ("signing_party_did" ∷ "signed_token" ∷ "issued_at" ∷ []) payload
      ok (elim missing [
        | some k ↦ because fail "whatsapp_business_signed_link missing field: {}" (str k ∷ [])
        | none ↦ passed
      ]))
    else if kind == "self_attestation_with_waiver"
    then (do
      p ← as_dict task_payload
      if not (truthy (get "self_attestation_explicitly_allowed" p))
          then ok (
              because fail
                "self_attestation_with_waiver requires explicit self_attestation_explicitly_allowed flag in task_payload"
                [])
          else do
            missing ← first_missing ("waiver_text" ∷ "signed_by_worker" ∷ []) payload
            ok (elim missing [
              | some k ↦ because fail "self_attestation_with_waiver missing field: {}" (str k ∷ [])
              | none ↦ passed
            ]))
    else ok (because fail "owner-sign-off verifier: unknown kind {}" (str kind ∷ []))
