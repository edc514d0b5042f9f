-- ===== src/Sdk/Identity.antt =====
-- wcp_sdk_python/wcp_sdk/identity.py: identifiers from keys, keys from identifiers, and signing.
use Prim.Native.String as Str
use worker_context_protocol.Prelude.{
  ℕ, zero, suc, ◌+◌, ◌*◌, ◌/◌, ◌%◌, String, not, Option, none, some, List, ◌∷◌, nat_beq, length,
  if◌then◌else◌,
}
use worker_context_protocol.Json.{Value}
use worker_context_protocol.Platform.{Platform}
use worker_context_protocol.Did.Base58.{
  b58, char_at, b58_index, number_from, leading_zeros, with_ones, leading_ones, shortest_bytes,
  with_zeros,
}
use worker_context_protocol.Did.Resolve.{join, begins, split_colon}

-- the loop of `_b58encode`, `while n > 0`, with fuel
unfoldable pub encode_loop : ℕ → ℕ → String → String
encode_loop zero n out = out
encode_loop (suc fuel) zero out = out
encode_loop (suc fuel) (suc k) out =
    encode_loop fuel (suc k / 58) (Str.◌∷◌ (char_at b58 (suc k % 58)) out)

-- `_b58encode` of the SDK
unfoldable pub encode_key : List ℕ → String
encode_key b = let n = number_from 0 b in with_ones (leading_zeros b) (encode_loop n n Str.[])

-- the loop of `_b58decode`
unfoldable pub decode_loop : ℕ → String → Option ℕ
decode_loop n Str.[] = some n
decode_loop n (Str.◌∷◌ c s) = elim (b58_index c) [
  | none ↦ none
  | some i ↦ decode_loop (n * 58 + i) s
]

-- `_b58decode` of the SDK, none for the ValueError
unfoldable pub decode_key : String → Option (List ℕ)
decode_key s = elim (decode_loop 0 s) [
  | none ↦ none
  | some n ↦ some (with_zeros (leading_ones s) (shortest_bytes n))
]

-- `did_from_pubkey`, none for the ValueError
unfoldable pub sdk_did_from_pubkey : List ℕ → Option String
sdk_did_from_pubkey key =
    if not (nat_beq (length key) 32) then none else some (join "did:wcp:" (encode_key key))

abbrev sized : List ℕ → Option (List ℕ)
sized key = if nat_beq (length key) 32 then some key else none

unfoldable pub key_of_parts : List String → Option (List ℕ)
key_of_parts (scheme ∷ method ∷ body ∷ rest) = elim (decode_key body) [
  | none ↦ none
  | some key ↦ sized key
]
key_of_parts _ = none

-- `pubkey_from_did`, none for a ValueError
unfoldable pub pubkey_from_did : String → Option (List ℕ)
pubkey_from_did did = if not (begins "did:wcp:" did) then none else key_of_parts (split_colon 3 did)

-- The private key and the base 64 of the cryptography package and the standard library.
pub record Keypair : Type 0 where
  pub public_bytes : List ℕ
  -- `Ed25519PrivateKey.sign`
  pub ed25519_sign : String → List ℕ
  -- `base64.urlsafe_b64encode(b).rstrip(b"=").decode("ascii")`
  pub encode_base64 : List ℕ → String

pub record Identity : Type 0 where
  pub did : String
  pub public_key_b64url : String
  pub key : Keypair

abbrev identity_of : Keypair → Option String → Option Identity
identity_of key none = none
identity_of key (some did) =
    some (record { did = did; public_key_b64url = key.encode_base64 key.public_bytes; key = key })

-- `_from_sk`
unfoldable pub identity_from_key : Keypair → Option Identity
identity_from_key key = identity_of key (sdk_did_from_pubkey key.public_bytes)

-- `_Identity.sign`
unfoldable pub sign : Platform → Identity → Value → String
sign py identity payload =
    join "ed25519:" (identity.key.encode_base64 (identity.key.ed25519_sign (py.dumps payload)))
