-- ===== src/Preview/Vouched.antt =====
-- Who vouches for the external evidence that is accepted.
use text.Mathlib.Text.{starts_with}
use worker_context_protocol.Prelude.{
  ℕ, String, ◌≡◌, ◌≢◌, refl, ap, ◌∙◌, inl, inr, Bool, true, false, none, some, Bool-cases,
  Option-cases,
}
use worker_context_protocol.Prelude.Int.{leb_ℤ, scale, sub_ℕ}
use worker_context_protocol.Json.{Value, Fields, get}
use worker_context_protocol.Json.Builtins.{truthy, as_str}
use worker_context_protocol.Platform.{Platform, Instant}
use worker_context_protocol.Result.{Result, ok, err, Result-cases}
use worker_context_protocol.Preview.Roots.{
  VerificationResult, JwksTrustRoot, DidResolutionTrustRoot, ExternalTrustRoot, jwks, x509_chain,
  did_resolution, jwks_verify, x509_verify, did_verify, root_verify, Registry, get_trust_root,
  root_id_of, verify_external_evidence, parsed, method_prefix, judge_instant,
}

abbrev accepts : Result VerificationResult → Bool
accepts (err e) = false
accepts (ok r) = r.accepted

-- An instant with a time zone, no older than the root allows.
abbrev pub IsFresh : ℕ → JwksTrustRoot → Instant → Type 0
IsFresh now root ts =
    (ts.aware ≡ true)
    × (leb_ℤ (sub_ℕ now ts.micros) (scale root.max_payload_age_seconds 1000000) ≡ true)

-- The root has keys, and its freshness field of the payload is a fresh instant.
abbrev pub Vouches : Platform → ℕ → JwksTrustRoot → Fields → Type 0
Vouches py now root payload =
    (root.cached_jwks ≢ none)
    × (ts : Instant) × (parsed py (get root.freshness_field payload) ≡ some ts)
    × IsFresh now root ts

judge_instant-IsFresh :
    (py : Platform) (now : ℕ) (root : JwksTrustRoot) (payload : Fields) (v : Value) (ts : Instant)
    → accepts (judge_instant py now root payload v (some ts)) ≡ true
    → IsFresh now root ts
judge_instant-IsFresh py now root payload v ts h = elim (Bool-cases ts.aware) [
  | inr a ↦ absurd (cc (rw a at h))
  | inl a ↦
      let h' = rw a at h in
      elim (Bool-cases (leb_ℤ (sub_ℕ now ts.micros) (scale root.max_payload_age_seconds 1000000))) [
        | inl b ↦ (a, b)
        | inr b ↦ absurd (cc (rw b at h'))
      ]
]

jwks_verify-Vouches :
    (py : Platform) (now : ℕ) (root : JwksTrustRoot) (payload : Fields)
    → accepts (jwks_verify py now root payload) ≡ true
    → Vouches py now root payload
unfolding jwks_verify
jwks_verify-Vouches py now root payload h = elim (Option-cases root.cached_jwks) [
  | inl c ↦ absurd (cc (rw c at h))
  | inr (keys, c) ↦
      let h' = rw c at h in
      elim (Bool-cases (truthy (get root.freshness_field payload))) [
        | inr t ↦ absurd (cc (rw t at h'))
        | inl t ↦
            let h'' = rw t at h' in
            elim (Option-cases (parsed py (get root.freshness_field payload))) [
              | inl p ↦ absurd (cc (rw p at h''))
              | inr (ts, p) ↦ (
                λ q. absurd (cc (q, c)),
                ts,
                p,
                judge_instant-IsFresh py now root payload (get root.freshness_field payload) ts
                    (rw p at h''),
              )
            ]
      ]
]

did_verify-refuses :
    (py : Platform) (root : DidResolutionTrustRoot) (payload : Fields)
    → accepts (did_verify py root payload) ≡ false
unfolding did_verify
did_verify-refuses py root payload = elim (Bool-cases (truthy (get "signer_did" payload))) [
  | inr t ↦ rw t refl
  | inl t ↦ elim (Result-cases (as_str (get "signer_did" payload))) [
    | inl (e, p) ↦ rw (t, p) refl
    | inr (s, p) ↦ elim (Bool-cases (starts_with s (method_prefix root))) [
      | inl b ↦ rw (t, p, b) refl
      | inr b ↦ rw (t, p, b) refl
    ]
  ]
]

-- A root of the registry, under the identifier that the kind names, that vouches.
abbrev pub IsVouched : Platform → ℕ → Registry → String → Fields → Type 0
IsVouched py now registry kind payload =
    (starts_with kind "external-trust-root." ≡ true)
    × (root : JwksTrustRoot) × (get_trust_root (root_id_of kind) registry ≡ some (jwks root))
    × Vouches py now root payload

root_verify-Vouches :
    (py : Platform) (now : ℕ) (root : ExternalTrustRoot) (payload : Fields)
    → accepts (root_verify py now root payload) ≡ true
    → (j : JwksTrustRoot) × (root ≡ jwks j) × Vouches py now j payload
unfolding x509_verify
root_verify-Vouches py now (jwks j) payload h = (j, refl, jwks_verify-Vouches py now j payload h)
root_verify-Vouches py now (x509_chain root) payload h = absurd (cc h)
root_verify-Vouches py now (did_resolution root) payload h =
    absurd (cc (h, did_verify-refuses py root payload))

-- Evidence is accepted only if its kind has the prefix of external trust roots and names a
-- registered JWKS root, of which keys are cached, and the payload's freshness field is an instant
-- with a time zone that is not older than the root allows.
pub accepted_evidence-IsVouched :
    (py : Platform) (now : ℕ) (registry : Registry) (kind : String) (payload : Fields)
    (result : VerificationResult)
    → verify_external_evidence py now registry kind payload ≡ ok result
    → result.accepted ≡ true
    → IsVouched py now registry kind payload
unfolding verify_external_evidence
accepted_evidence-IsVouched py now registry kind payload result h a =
    let h' = ap accepts h ∙ a in
    elim (Bool-cases (starts_with kind "external-trust-root.")) [
      | inr b ↦ absurd (cc (rw b at h'))
      | inl b ↦
          let h'' = rw b at h' in
          elim (Option-cases (get_trust_root (root_id_of kind) registry)) [
            | inl g ↦ absurd (cc (rw g at h''))
            | inr (root, g) ↦
                let (j, e, v) = root_verify-Vouches py now root payload (rw g at h'') in
                (b, j, g ∙ ap some e, v)
          ]
    ]
