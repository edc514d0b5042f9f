-- ===== src/Did/Resolve.antt =====
-- `DidResolver`: resolve, verify and did_from_pubkey.
use Prim.Native.Char.{code}
use Prim.Native.String as Str
use worker_context_protocol.Prelude.{
  ℕ, zero, suc, String, Bool, true, false, not, ◌&&◌, Option, none, some, List, [], ◌∷◌, ◌==◌,
  nat_beq, length, if◌then◌else◌,
}
use worker_context_protocol.Did.Base58.{b58encode, b58decode}
use worker_context_protocol.Resolver.{ResolvedDid, Resolver}

-- `s + t`
unfoldable pub join : String → String → String
join Str.[] t = t
join (Str.◌∷◌ c s) t = Str.◌∷◌ c (join s t)

-- `s.startswith(prefix)`
unfoldable pub begins : String → String → Bool
begins Str.[] s = true
begins (Str.◌∷◌ c t) Str.[] = false
begins (Str.◌∷◌ c t) (Str.◌∷◌ d s) = nat_beq (code c) (code d) && begins t s

-- `s[n:]`
unfoldable pub drop : ℕ → String → String
drop zero s = s
drop (suc n) Str.[] = Str.[]
drop (suc n) (Str.◌∷◌ c s) = drop n s

-- what stands before the first colon
unfoldable pub before_colon : String → String
before_colon Str.[] = Str.[]
before_colon (Str.◌∷◌ c s) =
    let rest = before_colon s in if nat_beq (code c) b':' then Str.[] else Str.◌∷◌ c rest

-- what stands after the first colon
unfoldable pub after_colon : String → Option String
after_colon Str.[] = none
after_colon (Str.◌∷◌ c s) =
    let rest = after_colon s in if nat_beq (code c) b':' then some s else rest

-- `s.split(":", maxsplit=n)`
unfoldable pub split_colon : ℕ → String → List String
split_colon zero s = s ∷ []
split_colon (suc n) s = elim (after_colon s) [
  | none ↦ s ∷ []
  | some rest ↦ before_colon s ∷ split_colon n rest
]

-- `parts[3] if len(parts) == 4 else None`
abbrev path_of : List String → Option String
path_of [] = none
path_of (path ∷ more) = some path

abbrev checked_key : String → Option String → List ℕ → Option ResolvedDid
checked_key did path key =
    if nat_beq (length key) 32
    then some (record { did = did; public_key = key; path = path })
    else none

-- the identifier's text as a key
unfoldable pub resolve_identifier : String → String → Option String → Option ResolvedDid
resolve_identifier did identifier path = elim (b58decode identifier) [
  | none ↦ none
  | some key ↦ checked_key did path key
]

unfoldable pub resolve_parts : String → List String → Option ResolvedDid
resolve_parts did (scheme ∷ method ∷ identifier ∷ rest) =
    if not (method == "wcp") then none else resolve_identifier did identifier (path_of rest)
resolve_parts did _ = none

-- `DidResolver.resolve`, none for a DIDResolutionError
unfoldable pub resolve : String → Option ResolvedDid
resolve did = if not (begins "did:" did) then none else resolve_parts did (split_colon 3 did)

-- `DidResolver.did_from_pubkey`, none for the ValueError
unfoldable pub did_from_pubkey : List ℕ → Option String
did_from_pubkey key =
    if not (nat_beq (length key) 32) then none else some (join "did:wcp:" (b58encode key))

-- The cryptography package and `base64`.
pub record Keys : Type 0 where
  -- `base64.urlsafe_b64decode(s)`, none for what it raises
  pub decode_base64 : String → Option (List ℕ)
  -- `Ed25519PublicKey.from_public_bytes(key).verify(sig, payload)`, false for InvalidSignature
  pub ed25519_verify : List ℕ → List ℕ → String → Bool

-- `DidResolver.verify`, false for a SignatureVerificationError
unfoldable pub verify : Keys → ResolvedDid → String → String → Bool
verify keys resolved payload signature =
    if not (begins "ed25519:" signature)
    then false
    else elim (keys.decode_base64 (join (drop 8 signature) "==")) [
      | none ↦ false
      | some sig ↦ keys.ed25519_verify resolved.public_key sig payload
    ]

-- the resolver of the coordinator
abbrev pub did_resolver : Keys → Resolver
did_resolver keys = record { resolve = resolve; check_sig = verify keys }
