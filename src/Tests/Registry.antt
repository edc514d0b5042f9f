-- ===== src/Tests/Registry.antt =====
-- The public registry at concrete inputs.
use worker_context_protocol.Prelude.{
  String, ◌≡◌, ◌⊎◌, refl, true, false, none, some, List, [], ◌∷◌, All, Exists,
}
use worker_context_protocol.Prelude.Int.{pos}
use worker_context_protocol.Json.{str, get}
use worker_context_protocol.Coordinators.{Libraries, CoordinatorDescriptor, dump}
use worker_context_protocol.Coordinators.Pinned.{HasKey, IsOwnersDelete, registered_key_pinned}
use worker_context_protocol.Coordinators.Service.{
  Request, post, delete, handle_all, row_of, find_coordinator,
}
use worker_context_protocol.Coordinators.Signature.{
  verify_descriptor_signature, decode_multibase_pubkey,
}
use worker_context_protocol.Coordinators.Signed.{IsVerified, registered_rows-IsVerified}
use worker_context_protocol.Result.{ok}

abbrev libraries : Libraries
libraries = record {
  has_nacl = true;
  matches = λ pattern v. true;
  dumps_utf8 = λ v. "{}";
  decode_padded = λ s. some [];
  nacl_verify = λ key canonical sig. some true;
}

-- The multibase text of 32 bytes of 1.
abbrev ones_key : String
ones_key = "z4vJ9JU1bJJE96FWSJKvHsmmFADCg4gpZQff4P3bkLKi"

abbrev described : String → CoordinatorDescriptor
described key = record {
  schema_version = "wcp/0.2";
  did = "did:wcp:alpha";
  endpoint = "wss://alpha.example";
  operator = "Alpha";
  operator_country = "FI";
  operator_legal_form = none;
  jurisdictions_served = "FI" ∷ [];
  descriptor_types_accepted = "delivery" ∷ [];
  worker_classes_accepted = "human" ∷ [];
  conformance_level = pos 2;
  conformance_attestation_url = none;
  settlement_currencies = "EUR" ∷ [];
  federation_peers = [];
  public_key_multibase = key;
  signed_at = "2026-01-01T00:00:00Z";
  signature = "AAAA";
}

-- a key in another base is refused
test_signature : verify_descriptor_signature libraries (dump (described "m4")) ≡ ok false
unfolding verify_descriptor_signature decode_multibase_pubkey
test_signature = refl

abbrev requests : List Request
requests =
    post (described ones_key)
    ∷ post (described "z111")
    ∷ delete "did:wcp:beta" (described ones_key)
    ∷ []

registered_key_pinned_example :
    HasKey "did:wcp:alpha" ones_key
      (handle_all libraries requests (row_of (described ones_key) ∷ []))
    ⊎ Exists (IsOwnersDelete libraries "did:wcp:alpha" ones_key) requests
unfolding find_coordinator
registered_key_pinned_example =
    registered_key_pinned libraries "did:wcp:alpha" ones_key requests
      (row_of (described ones_key) ∷ []) (row_of (described ones_key), refl, refl)

registered_rows-IsVerified_example :
    All
      (λ row.
        IsVerified libraries row.public_key_multibase row.descriptor_json
        × (get "did" row.descriptor_json ≡ str row.did)
        × (get "public_key_multibase" row.descriptor_json ≡ str row.public_key_multibase))
      (handle_all libraries requests [])
registered_rows-IsVerified_example = registered_rows-IsVerified libraries requests refl
