-- ===== src/Preview/Roots.antt =====
-- preview/external_trust_root.py: the trust roots outside did:wcp and their registry. A subclass
-- that a deployment adds is not modelled.
use Prim.Native.String as Str
use text.Mathlib.Text.{starts_with}
use worker_context_protocol.Prelude.{
  ℕ, zero, suc, String, Bool, true, false, not, Option, none, some, List, [], ◌∷◌, map, ◌==◌,
  if◌then◌else◌,
}
use worker_context_protocol.Prelude.Int.{ℤ, leb_ℤ, scale, sub_ℕ}
use worker_context_protocol.Json.{Value, null, str, int, Fields, get}
use worker_context_protocol.Json.Builtins.{truthy, as_str}
use worker_context_protocol.Platform.{Platform, Instant}
use worker_context_protocol.Did.Resolve.{join}
use worker_context_protocol.Federation.Anchors.{sort_texts}
use worker_context_protocol.Result.{Result, ok, err, crash, ◌>>=◌}

-- the age in microseconds; the identifier is whatever JSON value the payload has
pub record VerificationResult : Type 0 where
  pub accepted : Bool
  pub reason : String
  pub signer_identifier : Value
  pub signer_trust_anchor_ref : Option String
  pub payload_age_micros : Option ℤ

pub record JwksTrustRoot : Type 0 where
  pub root_identifier : String
  pub jwks_url : String
  pub signature_algorithm : String
  pub freshness_field : String
  pub max_payload_age_seconds : ℤ
  pub max_trust_anchor_age_seconds : ℤ
  pub cached_jwks : Option Fields

pub record X509ChainTrustRoot : Type 0 where
  pub root_identifier : String
  pub trust_store_pem : String
  pub signature_algorithm : String
  pub max_payload_age_seconds : ℤ

pub record DidResolutionTrustRoot : Type 0 where
  pub root_identifier : String
  pub did_method : String
  pub resolver_url : Option String
  pub signature_algorithm : String
  pub max_payload_age_seconds : ℤ

-- an instance of one of the three subclasses
pub data ExternalTrustRoot : Type 0 where
  jwks : JwksTrustRoot → ExternalTrustRoot
  x509_chain : X509ChainTrustRoot → ExternalTrustRoot
  did_resolution : DidResolutionTrustRoot → ExternalTrustRoot

-- `JWKSTrustRoot(…)`: nothing is cached
unfoldable pub new_jwks_root : String → String → String → String → ℤ → ℤ → JwksTrustRoot
new_jwks_root root_identifier jwks_url algorithm freshness_field age anchor_age = record {
  root_identifier = root_identifier;
  jwks_url = jwks_url;
  signature_algorithm = algorithm;
  freshness_field = freshness_field;
  max_payload_age_seconds = age;
  max_trust_anchor_age_seconds = anchor_age;
  cached_jwks = none;
}

-- a `VerificationResult` of which only the reason is given
abbrev pub refused : String → VerificationResult
refused reason = record {
  accepted = false;
  reason = reason;
  signer_identifier = null;
  signer_trust_anchor_ref = none;
  payload_age_micros = none;
}

-- what follows the `try`, and the test of the age in it
abbrev pub judge_age : Platform → JwksTrustRoot → Fields → ℤ → VerificationResult
judge_age py root payload age =
    if not (leb_ℤ age (scale root.max_payload_age_seconds 1000000))
    then record (refused (
        py.format "payload too old: {age:.0f}s > {self.max_payload_age_seconds}s"
          (int age ∷ int root.max_payload_age_seconds ∷ []))) { payload_age_micros = some age }
    else record {
      accepted = true;
      reason = "preview: structural validation passed; signature verification stubbed";
      signer_identifier = get "kid" payload;
      signer_trust_anchor_ref = some root.jwks_url;
      payload_age_micros = some age;
    }

-- `datetime.now(timezone.utc) - ts`: a TypeError, which is not caught, for a naive `ts`
abbrev pub judge_instant :
    Platform → ℕ → JwksTrustRoot → Fields → Value → Option Instant → Result VerificationResult
judge_instant py now root payload v none =
    ok (refused (py.format "freshness parse error: {exc}" (v ∷ [])))
judge_instant py now root payload v (some ts) =
    if ts.aware then ok (judge_age py root payload (sub_ℕ now ts.micros)) else err crash

-- `datetime.fromisoformat(ts_str.replace("Z", "+00:00"))`, none for what the `try` catches
abbrev pub parsed : Platform → Value → Option Instant
parsed py (str s) = py.parse_iso s
parsed py _ = none

-- `JWKSTrustRoot.verify`, with the reading of the clock
unfoldable pub jwks_verify : Platform → ℕ → JwksTrustRoot → Fields → Result VerificationResult
jwks_verify py now root payload = elim root.cached_jwks [
  | none ↦ ok (
      refused (
        py.format
          "preview: JWKS not cached. Production deployments fetch from {self.jwks_url} and verify the signature."
          (str root.jwks_url ∷ [])))
  | some keys ↦
      let ts_str = get root.freshness_field payload in
      if not (truthy ts_str)
      then ok (
          refused (
            py.format "missing freshness field: {self.freshness_field}"
              (str root.freshness_field ∷ [])))
      else judge_instant py now root payload ts_str (parsed py ts_str)
]

unfoldable pub x509_verify : X509ChainTrustRoot → Fields → VerificationResult
x509_verify root payload = record {
  accepted = false;
  reason =
      "preview: X.509 chain verification stubbed. Production deployments verify leaf-to-root chain and signature.";
  signer_identifier = get "certificate_serial" payload;
  signer_trust_anchor_ref = some (join "x509:" root.root_identifier);
  payload_age_micros = none;
}

-- `f"did:{self.did_method}:"`
abbrev pub method_prefix : DidResolutionTrustRoot → String
method_prefix root = join "did:" (join root.did_method ":")

abbrev pub foreign_did : Platform → DidResolutionTrustRoot → Value → VerificationResult
foreign_did py root signer_did = refused (
    py.format "signer_did missing or not a did:{self.did_method}: {signer_did!r}"
      (str root.did_method ∷ signer_did ∷ []))

unfoldable pub did_verify : Platform → DidResolutionTrustRoot → Fields → Result VerificationResult
did_verify py root payload =
    let signer_did = get "signer_did" payload in
    if not (truthy signer_did) then ok (foreign_did py root signer_did) else (do
      s ← as_str signer_did
      if not (starts_with s (method_prefix root))
          then ok (foreign_did py root signer_did)
          else ok (record {
            accepted = false;
            reason =
                py.format
                  "preview: did:{self.did_method} resolution stubbed. Production deployments resolve the DID and verify the signature."
                  (str root.did_method ∷ []);
            signer_identifier = signer_did;
            signer_trust_anchor_ref = some (join "did:" root.did_method);
            payload_age_micros = none;
          }))

-- `root.verify(evidence_payload)`
abbrev pub root_verify : Platform → ℕ → ExternalTrustRoot → Fields → Result VerificationResult
root_verify py now (jwks root) payload = jwks_verify py now root payload
root_verify py now (x509_chain root) payload = ok (x509_verify root payload)
root_verify py now (did_resolution root) payload = did_verify py root payload

-- `_REGISTRY`, a dict in insertion order
abbrev pub Registry : Type 0
Registry = List (String × ExternalTrustRoot)

-- `_REGISTRY[root_identifier] = root_instance`
unfoldable pub register_trust_root : String → ExternalTrustRoot → Registry → Registry
register_trust_root id root [] = (id, root) ∷ []
register_trust_root id root ((k, r) ∷ rest) =
    let later = register_trust_root id root rest in
    if k == id then (k, root) ∷ rest else (k, r) ∷ later

-- `_REGISTRY.pop(root_identifier, None)`
unfoldable pub unregister_trust_root : String → Registry → Registry
unregister_trust_root id [] = []
unregister_trust_root id ((k, r) ∷ rest) =
    let later = unregister_trust_root id rest in if k == id then rest else (k, r) ∷ later

unfoldable pub get_trust_root : String → Registry → Option ExternalTrustRoot
get_trust_root id [] = none
get_trust_root id ((k, r) ∷ rest) =
    let later = get_trust_root id rest in if k == id then some r else later

abbrev drop_chars : ℕ → String → String
drop_chars zero s = s
drop_chars (suc n) Str.[] = Str.[]
drop_chars (suc n) (Str.◌∷◌ c s) = drop_chars n s

-- `evidence_kind[len(prefix):]`
abbrev pub root_id_of : String → String
root_id_of kind = drop_chars 20 kind

unfoldable pub verify_external_evidence :
    Platform → ℕ → Registry → String → Fields → Result VerificationResult
verify_external_evidence py now registry kind payload =
    if not (starts_with kind "external-trust-root.")
    then ok (
        refused
          (py.format "not an external-trust-root evidence kind: {evidence_kind!r}" (str kind ∷ [])))
    else elim (get_trust_root (root_id_of kind) registry) [
      | none ↦ ok (
          refused
            (py.format "no trust root registered for {root_id!r}" (str (root_id_of kind) ∷ [])))
      | some root ↦ root_verify py now root payload
    ]

unfoldable pub list_registered_roots : Registry → List String
list_registered_roots registry = sort_texts (map (λ pair. pair.0) registry)
