-- ===== src/Sdk/Codec.antt =====
-- The identifiers of the SDK against those of the coordinator.
use Prim.Native.String as Str
use mathlib.Core.Path.{subst}
use worker_context_protocol.Prelude.{
  ℕ, zero, suc, ◌+◌, ◌*◌, ◌/◌, arith, String, ◌≡◌, refl, sym, ap, ◌∙◌, inl, inr, true, false,
  Option, none, some, List, [], ◌∷◌, nat_beq, length, Bool-cases, Option-cases,
}
use worker_context_protocol.Did.Base58.{
  b58encode, b58decode, b58_index, encode_digits, decode_from, number_from,
}
use worker_context_protocol.Did.Bytes.{nat_beq-false}
use worker_context_protocol.Did.Identifiers.{
  begins-join, resolve-prefix, resolve-join, resolve-path,
}
use worker_context_protocol.Did.Resolve.{
  join, begins, split_colon, after_colon, before_colon, resolve, resolve_identifier,
  did_from_pubkey,
}
use worker_context_protocol.Resolver.{ResolvedDid}
use worker_context_protocol.Sdk.Identity.{
  encode_loop, encode_key, decode_loop, decode_key, sdk_did_from_pubkey, key_of_parts,
  pubkey_from_did,
}

pub encode_loop-eq : (fuel n : ℕ) (out : String) → encode_loop fuel n out ≡ encode_digits fuel n out
unfolding encode_loop encode_digits
encode_loop-eq zero n out = refl
encode_loop-eq (suc fuel) zero out = refl
encode_loop-eq (suc fuel) (suc k) out =
    rw (nat_beq-false (suc k) 0 (λ p. omega (arith, p))) (encode_loop-eq fuel (suc k / 58) _)

pub decode_loop-eq : (n : ℕ) (s : String) → decode_loop n s ≡ decode_from n s
unfolding decode_loop decode_from
decode_loop-eq n Str.[] = refl
decode_loop-eq n (Str.◌∷◌ c s) = elim (Option-cases (b58_index c)) [
  | inl p ↦ rw (p, decode_loop) (rw (p, decode_from) refl)
  | inr (i, p) ↦ rw (p, decode_loop) (rw (p, decode_from) (decode_loop-eq (n * 58 + i) s))
]

encode_key-eq : (b : List ℕ) → encode_key b ≡ b58encode b
unfolding encode_key b58encode
encode_key-eq b = rw (encode_loop-eq (number_from 0 b) (number_from 0 b) Str.[]) refl

decode_key-eq : (s : String) → decode_key s ≡ b58decode s
unfolding decode_key b58decode
decode_key-eq s = rw (decode_loop-eq 0 s, decode_key) refl

-- the key of what a resolution finds
abbrev pub key_of : Option ResolvedDid → Option (List ℕ)
key_of none = none
key_of (some r) = some r.public_key

-- The SDK makes the identifier that the coordinator makes.
pub sdk_did_from_pubkey-eq : (key : List ℕ) → sdk_did_from_pubkey key ≡ did_from_pubkey key
unfolding sdk_did_from_pubkey did_from_pubkey
sdk_did_from_pubkey-eq key = rw (encode_key-eq key) refl

identifier-key :
    (did t : String) (path : Option String) (rest : List String)
    → key_of_parts ("did" ∷ "wcp" ∷ t ∷ rest) ≡ key_of (resolve_identifier did t path)
unfolding resolve_identifier key_of_parts
identifier-key did t path rest =
    rw (decode_key-eq t, key_of_parts)
      (elim (Option-cases (b58decode t)) [
        | inl p ↦ rw (p, resolve_identifier) refl
        | inr (key, p) ↦
            rw (p, resolve_identifier)
              (elim (Bool-cases (nat_beq (length key) 32)) [
                | inl b ↦ rw b refl
                | inr b ↦ rw b refl
              ])
      ])

prefixed : (t : String) → pubkey_from_did (join "did:wcp:" t) ≡ key_of (resolve (join "did:wcp:" t))
unfolding pubkey_from_did begins join split_colon after_colon before_colon
prefixed t = elim (Option-cases (after_colon t)) [
  | inl p ↦
      rw (p, split_colon) (identifier-key (join "did:wcp:" t) t none [])
      ∙ ap key_of (sym (resolve-join t p))
  | inr (w, p) ↦
      rw (p, split_colon) (identifier-key (join "did:wcp:" t) (before_colon t) (some w) (w ∷ []))
      ∙ ap key_of (sym (resolve-path t w p))
]

begins_prefix : (v : String) → begins "did:wcp:" (join "did:wcp:" v) ≡ true
unfolding begins join
begins_prefix v = refl

unprefixed : (did : String) → begins "did:wcp:" did ≡ false → resolve did ≡ none
unprefixed did h = elim (Option-cases (resolve did)) [
  | inl p ↦ p
  | inr (r, p) ↦
      let (v, q) = resolve-prefix did r p in
      absurd (cc (h, ap (begins "did:wcp:") q, begins_prefix v))
]

-- For every text, the key that the SDK reads from it is the one that the coordinator's resolver
-- finds, and where the one raises the other does.
pub pubkey_from_did-resolve : (did : String) → pubkey_from_did did ≡ key_of (resolve did)
unfolding pubkey_from_did
pubkey_from_did-resolve did = elim (Bool-cases (begins "did:wcp:" did)) [
  | inl b ↦
      let (t, q) = begins-join "did:wcp:" did b in
      subst (λ d. pubkey_from_did d ≡ key_of (resolve d)) (sym q) (prefixed t)
  | inr b ↦ rw b (rw (unprefixed did b) refl)
]
