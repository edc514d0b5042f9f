-- ===== src/Coordinators/Signature.antt =====
-- infrastructure/public-registry/app/verify.py: the signature of a descriptor.
use Prim.Native.String as Str
use text.Mathlib.Text.{starts_with}
use worker_context_protocol.Prelude.{
  ℕ, String, Bool, true, false, not, Option, none, some, List, ◌==◌, nat_beq, length, if◌then◌else◌,
}
use worker_context_protocol.Json.{str, obj, Fields, end, field, get, get_or, has}
use worker_context_protocol.Json.Builtins.{as_str}
use worker_context_protocol.Coordinators.{Libraries}
use worker_context_protocol.Did.Base58.{decode_from, shortest_bytes}
use worker_context_protocol.Result.{Result, ok, err, crash, ◌>>=◌}

-- `{k: v for k, v in descriptor.items() if k != "signature"}`
abbrev pub unsigned : Fields → Fields
unsigned end = end
unsigned (field k v rest) =
    let later = unsigned rest in if k == "signature" then later else field k v later

unfoldable pub canonicalise_for_signing : Libraries → Fields → String
canonicalise_for_signing libs descriptor = libs.dumps_utf8 (obj (unsigned descriptor))

abbrev body_of : String → String
body_of Str.[] = Str.[]
body_of (Str.◌∷◌ c s) = s

-- `_decode_multibase_pubkey`, none for a ValueError
unfoldable pub decode_multibase_pubkey : String → Option (List ℕ)
decode_multibase_pubkey multibase =
    if not (starts_with multibase "z")
    then none
    else elim (decode_from 0 (body_of multibase)) [ none ↦ none | some n ↦ some (shortest_bytes n) ]

-- the two `try` blocks at the end
abbrev pub check_signature : Libraries → List ℕ → Fields → Result Bool
check_signature libs key descriptor = do
  sig_b64u ← as_str (get_or "signature" (str "") descriptor)
  elim (libs.decode_padded sig_b64u) [
    | none ↦ ok false
    | some sig ↦ elim (libs.nacl_verify key (canonicalise_for_signing libs descriptor) sig) [
      | none ↦ err crash
      | some holds ↦ ok holds
    ]
  ]

abbrev pub check_key : Libraries → Option (List ℕ) → Fields → Result Bool
check_key libs none descriptor = ok false
check_key libs (some key) descriptor =
    if not (nat_beq (length key) 32) then ok false else check_signature libs key descriptor

unfoldable pub verify_descriptor_signature : Libraries → Fields → Result Bool
verify_descriptor_signature libs descriptor =
    if not libs.has_nacl
    then ok true
    else if not (has "public_key_multibase" descriptor)
    then ok false
    else (do
      multibase ← as_str (get "public_key_multibase" descriptor)
      check_key libs (decode_multibase_pubkey multibase) descriptor)
