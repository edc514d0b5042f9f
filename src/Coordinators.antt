-- ===== src/Coordinators.antt =====
-- infrastructure/public-registry/app/models.py and schemas.py: the public registry's rows and the
-- descriptors that coordinators post.
pub mod Signature
pub mod Service
pub mod Effects
pub mod Pinned
pub mod Signed
use worker_context_protocol.Prelude.{
  String, Bool, not, ◌&&◌, ◌||◌, Option, none, some, List, [], ◌∷◌, map, contains, all, is_empty, ℕ,
}
use worker_context_protocol.Prelude.Int.{ℤ, pos, eqb_ℤ}
use worker_context_protocol.Json.{Value, null, str, int, arr, Fields, end, field, of_list}

-- What the registry calls of pydantic's, Python's and PyNaCl's code.
pub record Libraries : Type 0 where
  -- whether `nacl` can be imported
  pub has_nacl : Bool
  -- `re.match(pattern, v)` finds a match
  pub matches : String → String → Bool
  -- `json.dumps(v, sort_keys=True, separators=(",", ":"), ensure_ascii=False).encode("utf-8")`
  pub dumps_utf8 : Value → String
  -- `base64.urlsafe_b64decode(s + "==")`, none for an exception
  pub decode_padded : String → Option (List ℕ)
  -- `VerifyKey(key).verify(canonical, sig)`: false for a BadSignatureError, none for another
  pub nacl_verify : List ℕ → String → List ℕ → Option Bool

-- `signed_at` is the text that `model_dump(mode="json")` gives
pub record CoordinatorDescriptor : Type 0 where
  pub schema_version : String
  pub did : String
  pub endpoint : String
  pub operator : String
  pub operator_country : String
  pub operator_legal_form : Option String
  pub jurisdictions_served : List String
  pub descriptor_types_accepted : List String
  pub worker_classes_accepted : List String
  pub conformance_level : ℤ
  pub conformance_attestation_url : Option String
  pub settlement_currencies : List String
  pub federation_peers : List String
  pub public_key_multibase : String
  pub signed_at : String
  pub signature : String

abbrev known_classes : List String
known_classes = "human" ∷ "autonomous_robot" ∷ "teleoperated_system" ∷ "hybrid_human_robot" ∷ []

abbrev is_level : ℤ → Bool
is_level z = eqb_ℤ z (pos 1) || eqb_ℤ z (pos 2) || eqb_ℤ z (pos 3)

-- the validators; FastAPI answers 422 where one raises
unfoldable pub is_valid : Libraries → CoordinatorDescriptor → Bool
is_valid libs d =
    libs.matches "^did:wcp:[A-Za-z0-9._-]+$" d.did
    && libs.matches "^wss?://" d.endpoint
    && libs.matches "^[A-Z]{2}$" d.operator_country
    && not (is_empty d.jurisdictions_served)
    && all (libs.matches "^[A-Z]{2}(-[A-Z0-9]{1,3})?$") d.jurisdictions_served
    && is_level d.conformance_level
    && all (libs.matches "^[A-Z]{3}$") d.settlement_currencies
    && all (libs.matches "^did:wcp:[A-Za-z0-9._-]+$") d.federation_peers
    && all (contains known_classes) d.worker_classes_accepted

abbrev texts : List String → Value
texts xs = arr (of_list (map str xs))

abbrev optional_text : Option String → Value
optional_text none = null
optional_text (some s) = str s

-- `descriptor.model_dump(mode="json")`
abbrev pub dump : CoordinatorDescriptor → Fields
dump d = field "schema_version" (str d.schema_version) (
    field "did" (str d.did) (
      field "endpoint" (str d.endpoint) (
        field "operator" (str d.operator) (
          field "operator_country" (str d.operator_country) (
            field "operator_legal_form" (optional_text d.operator_legal_form) (
              field "jurisdictions_served" (texts d.jurisdictions_served) (
                field "descriptor_types_accepted" (texts d.descriptor_types_accepted) (
                  field "worker_classes_accepted" (texts d.worker_classes_accepted) (
                    field "conformance_level" (int d.conformance_level) (
                      field "conformance_attestation_url"
                        (optional_text d.conformance_attestation_url)
                        (field "settlement_currencies" (texts d.settlement_currencies) (
                          field "federation_peers" (texts d.federation_peers) (
                            field "public_key_multibase" (str d.public_key_multibase) (
                              field "signed_at" (str d.signed_at)
                                (field "signature" (str d.signature) end)))))))))))))))

-- The columns that the service sets; the three time stamps that the database keeps are left out.
pub record Coordinator : Type 0 where
  pub did : String
  pub endpoint : String
  pub operator : String
  pub operator_country : String
  pub conformance_level : ℤ
  pub descriptor_json : Fields
  pub public_key_multibase : String
  pub signed_at : String
