-- ===== src/Preview/Multibase.antt =====
-- preview/multibase_identifier.py: identifiers with a multibase prefix, beside the older ones.
use Prim.Native.Char.{Char, code}
use Prim.Native.String as Str
use worker_context_protocol.Prelude.{
  ℕ, String, Bool, false, not, ◌||◌, Option, none, some, List, [], ◌∷◌, ◌==◌, nat_beq,
  if◌then◌else◌,
}
use worker_context_protocol.Did.Base58.{
  number_from, leading_zeros, with_ones, leading_ones, shortest_bytes, with_zeros,
}
use worker_context_protocol.Did.Resolve.{join, begins, drop}
use worker_context_protocol.Sdk.Identity.{encode_loop, decode_loop}

-- The other bases, from the standard library: encoders without padding, and decoders that add it,
-- none for a ValueError.
pub record Bases : Type 0 where
  pub encode_base64 : List ℕ → String
  pub encode_base32 : List ℕ → String
  pub encode_hex : List ℕ → String
  pub decode_base64 : String → Option (List ℕ)
  pub decode_base32 : String → Option (List ℕ)
  pub decode_hex : String → Option (List ℕ)

-- `_b58btc_encode`
unfoldable pub btc_encode : List ℕ → String
btc_encode [] = Str.[]
btc_encode (x ∷ xs) =
    let n = number_from 0 (x ∷ xs) in with_ones (leading_zeros (x ∷ xs)) (encode_loop n n Str.[])

-- `_b58btc_decode`, none for the ValueError
unfoldable pub btc_decode : String → Option (List ℕ)
btc_decode Str.[] = some []
btc_decode (Str.◌∷◌ c s) = elim (decode_loop 0 (Str.◌∷◌ c s)) [
  | none ↦ none
  | some n ↦ some (with_zeros (leading_ones (Str.◌∷◌ c s)) (shortest_bytes n))
]

-- `encode`, none for the ValueError of another encoding
unfoldable pub encode : Bases → List ℕ → String → Option String
encode bases key encoding =
    if encoding == "base58btc"
    then some (join "did:wcp:z" (btc_encode key))
    else if encoding == "base64url"
    then some (join "did:wcp:u" (bases.encode_base64 key))
    else if encoding == "base32"
    then some (join "did:wcp:b" (bases.encode_base32 key))
    else if encoding == "hex"
    then some (join "did:wcp:f" (bases.encode_hex key))
    else none

abbrev pub is_letter : ℕ → Char → Bool
is_letter n c = nat_beq (code c) n

-- `body[0] in _KNOWN_PREFIXES`
unfoldable pub is_prefix : Char → Bool
is_prefix c = is_letter b'z' c || is_letter b'u' c || is_letter b'b' c || is_letter b'f' c

-- `decode` of what follows "did:wcp:"
unfoldable pub decode_body : Bases → String → Option (List ℕ)
decode_body bases Str.[] = none
decode_body bases (Str.◌∷◌ c payload) =
    if is_letter b'z' c
    then btc_decode payload
    else if is_letter b'u' c
    then bases.decode_base64 payload
    else if is_letter b'b' c
    then bases.decode_base32 payload
    else if is_letter b'f' c
    then bases.decode_hex payload
    else btc_decode (Str.◌∷◌ c payload)

-- `decode`, none for a ValueError
unfoldable pub decode : Bases → String → Option (List ℕ)
decode bases identifier =
    if not (begins "did:wcp:" identifier) then none else decode_body bases (drop 8 identifier)

abbrev prefixed_body : String → Bool
prefixed_body Str.[] = false
prefixed_body (Str.◌∷◌ c s) = is_prefix c

-- `is_multibase`, none for the ValueError
unfoldable pub is_multibase : String → Option Bool
unfolding is_prefix
is_multibase identifier =
    if not (begins "did:wcp:" identifier) then none else some (prefixed_body (drop 8 identifier))

-- `canonicalize`, none for a ValueError
unfoldable pub canonicalize : Bases → String → Option String
canonicalize bases identifier = elim (decode bases identifier) [
  | none ↦ none
  | some raw ↦ some (join "did:wcp:z" (btc_encode raw))
]

abbrev encoding_of_body : String → Option String
encoding_of_body Str.[] = none
encoding_of_body (Str.◌∷◌ c s) =
    if is_letter b'z' c
    then some "base58btc"
    else if is_letter b'u' c
    then some "base64url"
    else if is_letter b'b' c
    then some "base32"
    else if is_letter b'f' c
    then some "hex"
    else some "legacy"

-- `encoding_used`, none for a ValueError
unfoldable pub encoding_used : String → Option String
encoding_used identifier =
    if not (begins "did:wcp:" identifier) then none else encoding_of_body (drop 8 identifier)
