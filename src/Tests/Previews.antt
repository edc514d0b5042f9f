-- ===== src/Tests/Previews.antt =====
-- The previews at concrete inputs.
use worker_context_protocol.Prelude.{
  ◌≤◌, ◌≡◌, refl, Bool, true, some, none, List, [], ◌∷◌, length, Exists,
}
use worker_context_protocol.Prelude.Int.{pos}
use worker_context_protocol.Json.{Fields, str, arr, obj, end, field, of_list}
use worker_context_protocol.Preview.Buffer.{Operation, operate, buffer_bounded_and_linked}
use worker_context_protocol.Preview.Lite.{Submission, empty_buffer, verify_chain_integrity}
use worker_context_protocol.Preview.Minimum.{accepted_key_qualifies, IsQualified}
use worker_context_protocol.Preview.Trust.{
  hardware_attested_tpm2, verify_minimum_trust_class, some_key_qualifies, key_qualifies,
  is_at_least, is_hardware_attested, trust_class_of,
}
use worker_context_protocol.Preview.Registered.{
  Change, register_jwks, unregister, constructed_roots_refuse,
}
use worker_context_protocol.Preview.Roots.{
  JwksTrustRoot, Registry, jwks, jwks_verify, get_trust_root, register_trust_root,
  unregister_trust_root, new_jwks_root, verify_external_evidence, refused,
}
use worker_context_protocol.Preview.Vouched.{IsVouched, accepted_evidence-IsVouched}
use worker_context_protocol.Tests.{test_platform}

abbrev sample : Submission
sample = record {
  entry_id = "e1";
  task_id = "t1";
  claim_id = some "c1";
  signer_did = "did:wcp:worker";
  payload = end;
  signature = "ed25519:AAAA";
  timestamp = none;
}

abbrev offline : List Operation
offline =
    Operation.add "noon" sample ∷ Operation.add "one" sample ∷ Operation.replay (λ es. true) ∷ []

buffer_bounded_and_linked_example :
    (length (operate test_platform offline (empty_buffer "did:wcp:worker" 1)).entries
      ≤ (operate test_platform offline (empty_buffer "did:wcp:worker" 1)).capacity)
    × (verify_chain_integrity test_platform
          (operate test_platform offline (empty_buffer "did:wcp:worker" 1))
        ≡ true)
buffer_bounded_and_linked_example =
    buffer_bounded_and_linked test_platform "did:wcp:worker" 1 offline

abbrev guarded : Fields
guarded =
    field "attestation_requirement"
      (obj (field "minimum_trust_class" (str "hardware-attested-tpm2") end)) end

abbrev delegate : Fields
delegate = field "key_id" (str "k2") (field "trust_class" (str "delegated") end)

abbrev capable : Fields
capable =
    field "attestation_keys"
      (arr (of_list (obj (field "key_id" (str "k1") end) ∷ obj delegate ∷ []))) end

accepted_key_qualifies_example :
    Exists
      (IsQualified none hardware_attested_tpm2 Bool.false)
      (obj (field "key_id" (str "k1") end) ∷ obj delegate ∷ [])
unfolding verify_minimum_trust_class some_key_qualifies key_qualifies is_at_least
    is_hardware_attested trust_class_of
accepted_key_qualifies_example =
    accepted_key_qualifies guarded capable
      (field "minimum_trust_class" (str "hardware-attested-tpm2") end) none hardware_attested_tpm2
      (arr (of_list (obj (field "key_id" (str "k1") end) ∷ obj delegate ∷ [])))
      (obj (field "key_id" (str "k1") end) ∷ obj delegate ∷ []) refl refl refl refl refl

-- A root whose keys a deployment has cached.
abbrev cached_root : JwksTrustRoot
cached_root = record {
  root_identifier = "acme";
  jwks_url = "https://acme.example/jwks";
  signature_algorithm = "RS256";
  freshness_field = "issued_at";
  max_payload_age_seconds = pos 3600;
  max_trust_anchor_age_seconds = pos 86400;
  cached_jwks = some end;
}

abbrev acme_registry : Registry
acme_registry = ("acme", jwks cached_root) ∷ []

abbrev issued : Fields
issued = field "kid" (str "k1") (field "issued_at" (str "1970-01-01T00:00:00Z") end)

accepted_evidence-IsVouched_example :
    IsVouched test_platform 2000 acme_registry "external-trust-root.acme" issued
unfolding verify_external_evidence get_trust_root jwks_verify
accepted_evidence-IsVouched_example =
    accepted_evidence-IsVouched test_platform 2000 acme_registry "external-trust-root.acme" issued
      (record {
        accepted = true;
        reason = "preview: structural validation passed; signature verification stubbed";
        signer_identifier = str "k1";
        signer_trust_anchor_ref = some "https://acme.example/jwks";
        payload_age_micros = some (pos 1000);
      })
      refl refl

abbrev registrations : List Change
registrations =
    register_jwks "acme" "acme" "https://acme.example/jwks" "RS256" "issued_at" (pos 3600)
      (pos 86400)
    ∷ unregister "other"
    ∷ []

constructed_roots_refuse_example :
    (refused
      "preview: JWKS not cached. Production deployments fetch from {self.jwks_url} and verify the signature.").accepted
    ≡ Bool.false
unfolding verify_external_evidence get_trust_root jwks_verify register_trust_root
    unregister_trust_root new_jwks_root
constructed_roots_refuse_example =
    constructed_roots_refuse test_platform 2000 registrations "external-trust-root.acme" issued
      (refused
        "preview: JWKS not cached. Production deployments fetch from {self.jwks_url} and verify the signature.")
      refl
