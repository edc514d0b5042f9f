-- ===== src/Preview/Trust.antt =====
-- preview/trust_classes.py: the trust classes and the minimum that a task may ask for.
use worker_context_protocol.Prelude.{
  String, Bool, true, false, not, Option, none, some, List, [], ◌∷◌, ◌==◌, if◌then◌else◌,
}
use worker_context_protocol.Json.{
  Value, str, bool, arr, obj, Fields, end, field, get, get_or, put, nil,
}
use worker_context_protocol.Json.Builtins.{truthy, as_dict, iterate, value_eq}
use worker_context_protocol.Result.{Result, ok, ◌>>=◌}

pub data TrustClass : Type 0 where
  software_keypair hardware_attested_tpm2 hardware_attested_webauthn : TrustClass
  hardware_attested_secure_enclave hardware_attested_tee delegated : TrustClass

-- `tc.value`
abbrev pub trust_class_value : TrustClass → String
trust_class_value software_keypair = "software-keypair"
trust_class_value hardware_attested_tpm2 = "hardware-attested-tpm2"
trust_class_value hardware_attested_webauthn = "hardware-attested-webauthn"
trust_class_value hardware_attested_secure_enclave = "hardware-attested-secure-enclave"
trust_class_value hardware_attested_tee = "hardware-attested-tee"
trust_class_value delegated = "delegated"

abbrev class_of_text : String → Option TrustClass
class_of_text s =
    if s == "software-keypair"
    then some software_keypair
    else if s == "hardware-attested-tpm2"
    then some hardware_attested_tpm2
    else if s == "hardware-attested-webauthn"
    then some hardware_attested_webauthn
    else if s == "hardware-attested-secure-enclave"
    then some hardware_attested_secure_enclave
    else if s == "hardware-attested-tee"
    then some hardware_attested_tee
    else if s == "delegated"
    then some delegated
    else none

-- `TrustClass(v)`, none for a ValueError
unfoldable pub trust_class_of : Value → Option TrustClass
trust_class_of (str s) = class_of_text s
trust_class_of _ = none

-- `a == b` on members of the enumeration
abbrev pub same_class : TrustClass → TrustClass → Bool
same_class software_keypair software_keypair = true
same_class hardware_attested_tpm2 hardware_attested_tpm2 = true
same_class hardware_attested_webauthn hardware_attested_webauthn = true
same_class hardware_attested_secure_enclave hardware_attested_secure_enclave = true
same_class hardware_attested_tee hardware_attested_tee = true
same_class delegated delegated = true
same_class _ _ = false

unfoldable pub is_hardware_attested : TrustClass → Bool
is_hardware_attested software_keypair = false
is_hardware_attested delegated = false
is_hardware_attested _ = true

unfoldable pub is_at_least : TrustClass → TrustClass → Bool → Bool
unfolding is_hardware_attested
is_at_least declared minimum strict =
    if same_class declared minimum
    then true
    else if same_class minimum software_keypair
    then true
    else if is_hardware_attested minimum
    then (if strict
        then false
        else if is_hardware_attested declared
        then true
        else if same_class declared delegated
        then true
        else false)
    else if same_class minimum delegated
    then same_class declared delegated
    else false

pub record AttestationKeyEntry : Type 0 where
  pub key_id : String
  pub did : String
  pub public_key_multibase : String
  pub algorithm : String
  pub trust_class : TrustClass

unfoldable pub key_to_dict : AttestationKeyEntry → Fields
key_to_dict k = field "key_id" (str k.key_id) (
    field "did" (str k.did) (
      field "public_key_multibase" (str k.public_key_multibase) (
        field "algorithm" (str k.algorithm)
          (field "trust_class" (str (trust_class_value k.trust_class)) end))))

unfoldable pub declare_trust_class : Fields → TrustClass → Fields
declare_trust_class entry trust_class =
    put "trust_class" (str (trust_class_value trust_class)) entry

-- `k.get("key_id") != key_id` where a key is asked for
abbrev pub is_other_key : Option String → Fields → Bool
is_other_key none k = false
is_other_key (some id) k = not (value_eq (get "key_id" k) (str id))

abbrev qualifies : Option TrustClass → TrustClass → Bool → Bool
qualifies none minimum strict = false
qualifies (some declared) minimum strict = is_at_least declared minimum strict

-- the test of one key in the loop
unfoldable pub key_qualifies : Option String → TrustClass → Bool → Fields → Bool
key_qualifies key_id minimum strict k =
    if is_other_key key_id k
    then false
    else qualifies (trust_class_of (get_or "trust_class" (str "software-keypair") k)) minimum strict

-- the loop over the keys
unfoldable pub some_key_qualifies : Option String → TrustClass → Bool → List Value → Result Bool
some_key_qualifies key_id minimum strict [] = ok false
some_key_qualifies key_id minimum strict (v ∷ rest) =
    let later = some_key_qualifies key_id minimum strict rest in
    do k ← as_dict v; if key_qualifies key_id minimum strict k then ok true else later

-- the keys, at the top level or under `required`
abbrev pub keys_of : Fields → Result Value
keys_of capability =
    let top = get_or "attestation_keys" (arr nil) capability in
    if truthy top then ok top else (do
      required ← as_dict (get_or "required" (obj end) capability)
      ok (get_or "attestation_keys" (arr nil) required))

abbrev pub check_minimum : Option String → Bool → Fields → Option TrustClass → Result Bool
check_minimum key_id strict capability none = ok false
check_minimum key_id strict capability (some minimum) = do
  keys ← keys_of capability
  if not (truthy keys)
      then ok false
      else (do entries ← iterate keys; some_key_qualifies key_id minimum strict entries)

-- `crash` is an AttributeError or a TypeError
unfoldable pub verify_minimum_trust_class : Fields → Fields → Option String → Result Bool
verify_minimum_trust_class task capability key_id = do
  req ← as_dict (get_or "attestation_requirement" (obj end) task)
  let minimum = get "minimum_trust_class" req
  if not (truthy minimum)
      then ok true
      else check_minimum key_id (truthy (get_or "minimum_trust_class_strict" (bool false) req))
          capability (trust_class_of minimum)

-- `setdefault("attestation_requirement", {})`, which must be a dict, and the two assignments
abbrev with_fields : TrustClass → Bool → Fields → Fields
with_fields trust_class strict req =
    let req' = put "minimum_trust_class" (str (trust_class_value trust_class)) req in
    if strict then put "minimum_trust_class_strict" (bool true) req' else req'

unfoldable pub with_minimum_trust_class : TrustClass → Bool → Fields → Result Fields
with_minimum_trust_class trust_class strict task = do
  req ← as_dict (get_or "attestation_requirement" (obj end) task)
  ok (put "attestation_requirement" (obj (with_fields trust_class strict req)) task)
