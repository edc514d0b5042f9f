-- ===== src/Tests/Identifiers.antt =====
-- Identifiers and keys at concrete inputs.
use worker_context_protocol.Prelude.{
  ℕ, String, ◌≡◌, refl, sym, ap, true, inl, inr, Option, some, none, List, [], ◌∷◌, All, all, ltb,
  Bool-cases, arith,
}
use worker_context_protocol.Did.Base58.{
  b58encode, encode_digits, number_from, leading_zeros, with_ones, char_at,
}
use worker_context_protocol.Did.Bytes.{IsByte}
use worker_context_protocol.Did.Digits.{encode_digits-fuel}
use worker_context_protocol.Did.Identifiers.{resolve-did_from_pubkey, did_from_pubkey-resolve}
use worker_context_protocol.Did.Resolve.{join, begins, drop, resolve, did_from_pubkey}
use worker_context_protocol.Preview.Legacy.{
  canonicalize-canonicalize, legacy_identifier_decodes, GivesBytes, begins_plain,
}
use worker_context_protocol.Preview.Multibase.{
  Bases, canonicalize, decode, decode_body, encode, btc_encode, is_prefix,
}
use worker_context_protocol.Sdk.Codec.{pubkey_from_did-resolve, key_of}
use worker_context_protocol.Sdk.Identity.{pubkey_from_did, encode_loop}

-- a key of 32 bytes
abbrev pub test_key : List ℕ
test_key =
    0 ∷ 0 ∷ 0 ∷ 0 ∷ 0 ∷ 0 ∷ 0 ∷ 0 ∷ 0 ∷ 0 ∷ 0 ∷ 0 ∷ 0 ∷ 0 ∷ 0 ∷ 0 ∷ 0 ∷ 0 ∷ 0 ∷ 0 ∷ 0 ∷ 0 ∷ 0 ∷ 0
    ∷ 0 ∷ 0 ∷ 0 ∷ 0 ∷ 0 ∷ 0 ∷ 1 ∷ 44 ∷ []

bytes_of : (b : List ℕ) → all (λ n. ltb n 256) b ≡ true → All IsByte b
bytes_of [] h = tt
bytes_of (x ∷ xs) h = elim (Bool-cases (ltb x 256)) [
  | inl b ↦ let h' = rw b at h in (ground (arith, b), bytes_of xs h')
  | inr b ↦ absurd (cc (rw b at h))
]

pub test_key-IsByte : All IsByte test_key
test_key-IsByte = bytes_of test_key refl

encoded : b58encode (0 ∷ 0 ∷ 255 ∷ 254 ∷ 1 ∷ []) ≡ "112Uz8Y"
unfolding b58encode number_from leading_zeros encode_digits char_at with_ones
encoded = refl

abbrev pub test_did : String
test_did = "did:wcp:1111111111111111111111111111116B"

pub test_key-made : did_from_pubkey test_key ≡ some test_did
unfolding did_from_pubkey b58encode number_from leading_zeros encode_digits char_at with_ones join
test_key-made = refl

resolve-did_from_pubkey_example :
    resolve test_did ≡ some (record { did = test_did; public_key = test_key; path = none })
resolve-did_from_pubkey_example =
    resolve-did_from_pubkey test_key test_did test_key-IsByte test_key-made

test_did-resolves :
    resolve test_did ≡ some (record { did = test_did; public_key = test_key; path = none })
test_did-resolves = resolve-did_from_pubkey test_key test_did test_key-IsByte test_key-made

did_from_pubkey-resolve_example : did_from_pubkey test_key ≡ some test_did
did_from_pubkey-resolve_example =
    did_from_pubkey-resolve test_did (record { did = test_did; public_key = test_key; path = none })
      test_did-resolves refl

encode_digits-fuel_example : encode_digits 300 300 "" ≡ encode_digits 1000 300 ""
encode_digits-fuel_example = encode_digits-fuel 300 1000 300 "" (omega arith) (omega arith)

pubkey_from_did-resolve_example :
    pubkey_from_did "did:wcp:2g:tools/arm" ≡ key_of (resolve "did:wcp:2g:tools/arm")
pubkey_from_did-resolve_example = pubkey_from_did-resolve "did:wcp:2g:tools/arm"

abbrev test_bases : Bases
test_bases = record {
  encode_base64 = λ b. "AQ";
  encode_base32 = λ b. "AE";
  encode_hex = λ b. "01";
  decode_base64 = λ s. some (1 ∷ []);
  decode_base32 = λ s. some (1 ∷ []);
  decode_hex = λ s. some (1 ∷ []);
}

one-IsByte : (s : String) (b : List ℕ) → some (1 ∷ []) ≡ some b → All IsByte b
one-IsByte s b h =
    let same : 1 ∷ [] ≡ b = ap (λ (o : Option (List ℕ)). elim o [ none ↦ b | some l ↦ l ]) h in
    rw (sym same) (omega arith, tt)

test_bases-GivesBytes : GivesBytes test_bases
test_bases-GivesBytes = record { base64 = one-IsByte; base32 = one-IsByte; hex = one-IsByte }

canonicalize-canonicalize_example :
    (decode test_bases "did:wcp:z2" ≡ decode test_bases "did:wcp:f01")
    × (canonicalize test_bases "did:wcp:z2" ≡ some "did:wcp:z2")
unfolding canonicalize decode decode_body begins drop btc_encode encode_loop number_from
    leading_zeros with_ones char_at join
canonicalize-canonicalize_example =
    canonicalize-canonicalize test_bases "did:wcp:f01" "did:wcp:z2" test_bases-GivesBytes refl

legacy_identifier_decodes_example :
    (decode test_bases test_did ≡ some test_key)
    × (canonicalize test_bases test_did ≡ encode test_bases test_key "base58btc")
unfolding begins_plain is_prefix b58encode number_from leading_zeros encode_digits char_at with_ones
legacy_identifier_decodes_example =
    legacy_identifier_decodes test_bases test_key test_did test_key-IsByte test_key-made refl
