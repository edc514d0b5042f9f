-- ===== src/Preview/Legacy.antt =====
-- Multibase identifiers against the base 58 ones of the coordinator.
use Prim.Native.String as Str
use worker_context_protocol.Prelude.{
  ℕ, zero, suc, ◌%◌, ◌/◌, All-append, String, ◌≡◌, refl, sym, ap, ◌∙◌, inl, inr, Bool, true, false,
  not, Option, none, some, List, [], ◌∷◌, All, Bool-cases, Option-cases, arith, nat_beq, length,
}
use worker_context_protocol.Did.Base58.{
  b58encode, b58decode, number_from, to_bytes, shortest_bytes, with_zeros, with_ones, leading_ones,
  leading_zeros, encode_digits, decode_from,
}
use worker_context_protocol.Did.Bytes.{IsByte}
use worker_context_protocol.Did.Resolve.{join, begins, drop, did_from_pubkey}
use worker_context_protocol.Did.RoundTrip.{b58decode-b58encode}
use worker_context_protocol.Preview.Multibase.{
  Bases, btc_encode, btc_decode, encode, decode, decode_body, is_prefix, is_letter, canonicalize,
}
use worker_context_protocol.Sdk.Codec.{encode_loop-eq, decode_loop-eq}

btc_encode-eq : (b : List ℕ) → btc_encode b ≡ b58encode b
unfolding btc_encode b58encode number_from with_ones leading_zeros encode_digits
btc_encode-eq [] = refl
btc_encode-eq (x ∷ xs) =
    rw (encode_loop-eq (number_from 0 (x ∷ xs)) (number_from 0 (x ∷ xs)) Str.[]) refl

btc_decode-eq : (s : String) → btc_decode s ≡ b58decode s
unfolding btc_decode b58decode decode_from shortest_bytes with_zeros leading_ones
btc_decode-eq Str.[] = refl
btc_decode-eq (Str.◌∷◌ c s) = rw (decode_loop-eq 0 (Str.◌∷◌ c s), btc_decode) refl

decode-canonical :
    (bases : Bases) (b : List ℕ)
    → All IsByte b
    → decode bases (join "did:wcp:z" (btc_encode b)) ≡ some b
unfolding decode decode_body begins drop join
decode-canonical bases b bytes =
    btc_decode-eq (btc_encode b) ∙ ap b58decode (btc_encode-eq b) ∙ b58decode-b58encode b bytes

to_bytes-IsByte : (k n : ℕ) → All IsByte (to_bytes k n)
unfolding to_bytes
to_bytes-IsByte zero n = tt
to_bytes-IsByte (suc k) n =
    All-append IsByte (to_bytes k (n / 256)) (n % 256 ∷ []) (to_bytes-IsByte k (n / 256))
      (omega arith, tt)

shortest_bytes-IsByte : (n : ℕ) → All IsByte (shortest_bytes n)
unfolding shortest_bytes
shortest_bytes-IsByte n = elim (Bool-cases (nat_beq n 0)) [
  | inl b ↦ rw b tt
  | inr b ↦ rw b (to_bytes-IsByte _ n)
]

with_zeros-IsByte : (k : ℕ) (b : List ℕ) → All IsByte b → All IsByte (with_zeros k b)
unfolding with_zeros
with_zeros-IsByte zero b h = h
with_zeros-IsByte (suc k) b h = (omega arith, with_zeros-IsByte k b h)

b58decode-IsByte : (s : String) (b : List ℕ) → b58decode s ≡ some b → All IsByte b
unfolding b58decode
b58decode-IsByte s b h = elim (Option-cases (decode_from 0 s)) [
  | inl p ↦ absurd (cc (rw (p, b58decode) at h))
  | inr (n, p) ↦
      let h' = rw (p, b58decode) at h in
      let same : with_zeros (leading_ones s) (shortest_bytes n) ≡ b =
        ap (λ (o : Option (List ℕ)). elim o [ none ↦ b | some l ↦ l ]) h' in
      rw (sym same)
        (with_zeros-IsByte (leading_ones s) (shortest_bytes n) (shortest_bytes-IsByte n))
]

-- The decoders of the other bases return byte strings.
pub record GivesBytes (bases : Bases) : Type 0 where
  pub base64 : (s : String) (b : List ℕ) → bases.decode_base64 s ≡ some b → All IsByte b
  pub base32 : (s : String) (b : List ℕ) → bases.decode_base32 s ≡ some b → All IsByte b
  pub hex : (s : String) (b : List ℕ) → bases.decode_hex s ≡ some b → All IsByte b

decode_body-IsByte :
    (bases : Bases) (s : String) (b : List ℕ)
    → GivesBytes bases
    → decode_body bases s ≡ some b
    → All IsByte b
unfolding decode_body
decode_body-IsByte bases Str.[] b g h = absurd (cc h)
decode_body-IsByte bases (Str.◌∷◌ c t) b g h = elim (Bool-cases (is_letter b'z' c)) [
  | inl z ↦ let h' = rw z at h in b58decode-IsByte t b (sym (btc_decode-eq t) ∙ h')
  | inr z ↦
      let h1 = rw z at h in
      elim (Bool-cases (is_letter b'u' c)) [
        | inl u ↦ let h' = rw u at h1 in g.base64 t b h'
        | inr u ↦
            let h2 = rw u at h1 in
            elim (Bool-cases (is_letter b'b' c)) [
              | inl x ↦ let h' = rw x at h2 in g.base32 t b h'
              | inr x ↦
                  let h3 = rw x at h2 in
                  elim (Bool-cases (is_letter b'f' c)) [
                    | inl f ↦ let h' = rw f at h3 in g.hex t b h'
                    | inr f ↦
                        let h' = rw f at h3 in
                        b58decode-IsByte (Str.◌∷◌ c t) b (sym (btc_decode-eq (Str.◌∷◌ c t)) ∙ h')
                  ]
            ]
      ]
]

decode-IsByte :
    (bases : Bases) (s : String) (b : List ℕ)
    → GivesBytes bases
    → decode bases s ≡ some b
    → All IsByte b
unfolding decode
decode-IsByte bases s b g h = elim (Bool-cases (begins "did:wcp:" s)) [
  | inl p ↦ let h' = rw p at h in decode_body-IsByte bases (drop 8 s) b g h'
  | inr p ↦ absurd (cc (rw p at h))
]

-- The canonical form is canonical, and stands for the same key: where the decoders of the other
-- bases return byte strings, an identifier and its canonical form decode alike, and the canonical
-- form of the canonical form is itself.
pub canonicalize-canonicalize :
    (bases : Bases) (identifier canonical : String)
    → GivesBytes bases
    → canonicalize bases identifier ≡ some canonical
    → (decode bases canonical ≡ decode bases identifier)
      × (canonicalize bases canonical ≡ some canonical)
unfolding canonicalize
canonicalize-canonicalize bases identifier canonical g h =
    elim (Option-cases (decode bases identifier)) [
      | inl p ↦ absurd (cc (rw (p, canonicalize) at h))
      | inr (raw, p) ↦
          let h' = rw (p, canonicalize) at h in
          let same : join "did:wcp:z" (btc_encode raw) ≡ canonical =
            ap (λ (o : Option String). elim o [ none ↦ canonical | some t ↦ t ]) h' in
          let back : decode bases canonical ≡ some raw =
            ap (decode bases) (sym same)
            ∙ decode-canonical bases raw (decode-IsByte bases identifier raw g p) in
          (back ∙ sym p, rw (back, canonicalize) (ap some same))
    ]

-- The text begins with a character that is no multibase prefix.
unfoldable pub begins_plain : String → Bool
begins_plain Str.[] = false
begins_plain (Str.◌∷◌ c s) = not (is_prefix c)

plain-decodes :
    (bases : Bases) (s : String) → begins_plain s ≡ true → decode_body bases s ≡ b58decode s
unfolding begins_plain is_prefix decode_body
plain-decodes bases Str.[] h = absurd (cc h)
plain-decodes bases (Str.◌∷◌ c s) h = elim (Bool-cases (is_letter b'z' c)) [
  | inl z ↦ absurd (cc (rw z at h))
  | inr z ↦
      let h1 = rw z at h in
      elim (Bool-cases (is_letter b'u' c)) [
        | inl u ↦ absurd (cc (rw u at h1))
        | inr u ↦
            let h2 = rw u at h1 in
            elim (Bool-cases (is_letter b'b' c)) [
              | inl x ↦ absurd (cc (rw x at h2))
              | inr x ↦
                  let h3 = rw x at h2 in
                  elim (Bool-cases (is_letter b'f' c)) [
                    | inl f ↦ absurd (cc (rw f at h3))
                    | inr f ↦ rw z (rw u (rw x (rw f (btc_decode-eq (Str.◌∷◌ c s)))))
                  ]
            ]
      ]
]

legacy_text : (bases : Bases) (s : String) → decode bases (join "did:wcp:" s) ≡ decode_body bases s
unfolding decode begins drop join
legacy_text bases s = refl

-- The coordinator's identifier of a key, where its base 58 text does not begin with one of the
-- letters z, u, b and f, is decoded to the key, and its canonical form is the key's base58btc
-- identifier.
pub legacy_identifier_decodes :
    (bases : Bases) (key : List ℕ) (did : String)
    → All IsByte key
    → did_from_pubkey key ≡ some did
    → begins_plain (b58encode key) ≡ true
    → (decode bases did ≡ some key) × (canonicalize bases did ≡ encode bases key "base58btc")
unfolding did_from_pubkey canonicalize encode
legacy_identifier_decodes bases key did bytes h plain =
    elim (Bool-cases (nat_beq (length key) 32)) [
      | inr b ↦ absurd (cc (rw b at h))
      | inl b ↦
          let h' = rw b at h in
          let same : join "did:wcp:" (b58encode key) ≡ did =
            ap (λ (o : Option String). elim o [ none ↦ did | some d ↦ d ]) h' in
          let found : decode bases did ≡ some key =
            ap (decode bases) (sym same)
            ∙ legacy_text bases (b58encode key)
            ∙ plain-decodes bases (b58encode key) plain
            ∙ b58decode-b58encode key bytes in
          (found, rw (found, canonicalize) refl)
    ]
