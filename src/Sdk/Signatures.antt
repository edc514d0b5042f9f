-- ===== src/Sdk/Signatures.antt =====
-- What the SDK's identities sign against the coordinator's resolver and its `verify`.
use worker_context_protocol.Prelude.{
  String, ◌≡◌, refl, sym, ap, ◌∙◌, inl, inr, true, Option, none, some, All, Option-cases,
}
use worker_context_protocol.Json.{Fields, Value, obj}
use worker_context_protocol.Platform.{Platform}
use worker_context_protocol.Did.Bytes.{IsByte}
use worker_context_protocol.Did.Identifiers.{resolve-did_from_pubkey}
use worker_context_protocol.Did.Resolve.{
  Keys, did_resolver, join, begins, drop, resolve, verify, did_from_pubkey,
}
use worker_context_protocol.Sdk.Codec.{sdk_did_from_pubkey-eq}
use worker_context_protocol.Sdk.Identity.{
  Keypair, Identity, identity_from_key, sdk_did_from_pubkey, sign,
}
use worker_context_protocol.Models.{WcpClaim, AttestationMode}
use worker_context_protocol.Sdk.Calls.{build_evidence}
use worker_context_protocol.Sdk.Types.{evidence_to_dict}
use worker_context_protocol.Tasks.Attest.Evidence.{evidence_fields}
use worker_context_protocol.Tasks.Claim.Checks.{signature_holds}

-- The key pair's signatures verify under its public key, which is a byte string, and a signature in
-- base 64 without padding is decoded where two padding characters are added.
pub record IsMatching (key : Keypair) (keys : Keys) : Type 0 where
  pub bytes : All IsByte key.public_bytes
  pub decodes :
      (m : String)
      → keys.decode_base64 (join (key.encode_base64 (key.ed25519_sign m)) "==")
        ≡ some (key.ed25519_sign m)
  pub signs : (m : String) → keys.ed25519_verify key.public_bytes (key.ed25519_sign m) m ≡ true

-- What an identity made from a key pair is.
pub record IsIdentity (key : Keypair) (me : Identity) : Type 0 where
  pub same_key : me.key ≡ key
  pub made : did_from_pubkey key.public_bytes ≡ some me.did

identity_from_key-IsIdentity :
    (key : Keypair) (me : Identity) → identity_from_key key ≡ some me → IsIdentity key me
unfolding identity_from_key
identity_from_key-IsIdentity key me h = elim (Option-cases (sdk_did_from_pubkey key.public_bytes)) [
  | inl p ↦ absurd (cc (rw p at h))
  | inr (did, p) ↦
      let h' = rw p at h in
      let same = ap (λ (o : Option Identity). elim o [ none ↦ me | some x ↦ x ]) h' in
      rw (sym same)
        (record { same_key = refl; made = sym (sdk_did_from_pubkey-eq key.public_bytes) ∙ p })
]

-- The identity's DID resolves to its public key.
pub identity-resolves :
    (key : Keypair) (keys : Keys) (me : Identity)
    → IsMatching key keys
    → identity_from_key key ≡ some me
    → resolve me.did ≡ some (record { did = me.did; public_key = key.public_bytes; path = none })
identity-resolves key keys me m h =
    resolve-did_from_pubkey key.public_bytes me.did m.bytes
      (identity_from_key-IsIdentity key me h).made

sign-verifies :
    (py : Platform) (key : Keypair) (keys : Keys) (me : Identity) (v : Value)
    → IsMatching key keys
    → me.key ≡ key
    → verify keys
        (record { did = me.did; public_key = key.public_bytes; path = none })
        (py.dumps v)
        (sign py me v)
      ≡ true
unfolding verify sign begins join drop
sign-verifies py key keys me v m same =
    rw same (rw (m.decodes (py.dumps v), verify) (m.signs (py.dumps v)))

-- the check of a signature, after its DID has been resolved
pub identity_check :
    (py : Platform) (key : Keypair) (keys : Keys) (me : Identity) (fields : Fields)
    → IsMatching key keys
    → identity_from_key key ≡ some me
    → verify keys
        (record { did = me.did; public_key = key.public_bytes; path = none })
        (py.dumps (obj fields))
        (sign py me (obj fields))
      ≡ true
identity_check py key keys me fields m h =
    sign-verifies py key keys me (obj fields) m (identity_from_key-IsIdentity key me h).same_key

-- A value that an identity of the SDK signs is accepted by the coordinator's resolver as signed by
-- the identity's DID, where the cryptography and base 64 match.
pub identity_signature_holds :
    (py : Platform) (key : Keypair) (keys : Keys) (me : Identity) (fields : Fields)
    → IsMatching key keys
    → identity_from_key key ≡ some me
    → signature_holds py (did_resolver keys) me.did fields (sign py me (obj fields)) ≡ true
identity_signature_holds py key keys me fields m h =
    rw (identity-resolves key keys me m h, signature_holds)
      (identity_check py key keys me fields m h)

-- The evidence that the SDK builds for a claim of the identity is accepted by the coordinator's
-- check of its signature, as the evidence stands in the submitted dict, under the same conditions.
pub built_evidence_authentic :
    (py : Platform) (key : Keypair) (keys : Keys) (me : Identity) (claim : WcpClaim)
    (mode : AttestationMode) (kind : String) (payload : Fields) (collected_at : Option String)
    (now : String)
    → IsMatching key keys
    → identity_from_key key ≡ some me
    → claim.worker_id ≡ me.did
    → signature_holds py
        (did_resolver keys)
        claim.worker_id
        (evidence_fields claim (
          evidence_to_dict
            (build_evidence py me claim.claim_id mode kind payload collected_at now)))
        (build_evidence py me claim.claim_id mode kind payload collected_at now).sig
      ≡ true
unfolding build_evidence evidence_to_dict
built_evidence_authentic py key keys me claim mode kind payload collected_at now m h mine =
    rw mine (identity_signature_holds py key keys me _ m h)
