-- ===== src/Did/Identifiers.antt =====
-- `resolve` against `did_from_pubkey`.
use Prim.Native.Char.{code}
use Prim.Native.String as Str
use text.Mathlib.TextEquality.{Char-path}
use worker_context_protocol.Prelude.{
  ℕ, ◌+◌, ◌*◌, String, ◌≡◌, refl, sym, ap, ◌∙◌, inl, inr, true, false, Option, none, some, List, [],
  ◌∷◌, ◌==◌, eq_iff, nat_beq, length, All, Bool-cases, Option-cases,
}
use worker_context_protocol.Did.Base58.{b58encode, b58decode, b58_index, index_from, decode_from}
use worker_context_protocol.Did.Bytes.{IsByte, nat_beq-eq}
use worker_context_protocol.Did.Resolve.{
  join, begins, before_colon, after_colon, split_colon, resolve, resolve_parts, resolve_identifier,
  did_from_pubkey,
}
use worker_context_protocol.Did.RoundTrip.{b58decode-b58encode, b58encode-b58decode}
use worker_context_protocol.Resolver.{ResolvedDid}

-- A text of the alphabet has no colon.
decode_from-no_colon :
    (n : ℕ) (s : String) (m : ℕ) → decode_from n s ≡ some m → after_colon s ≡ none
unfolding decode_from after_colon index_from
decode_from-no_colon n Str.[] m h = refl
decode_from-no_colon n (Str.◌∷◌ c s) m h = elim (Bool-cases (nat_beq (code c) b':')) [
  | inl b ↦
      let e : c ≡ ":" = Char-path c ":" (nat_beq-eq (code c) b':' b) in absurd (cc (rw e at h))
  | inr b ↦ elim (Option-cases (b58_index c)) [
    | inl p ↦ absurd (cc (rw (p, decode_from) at h))
    | inr (i, p) ↦
        let h' = rw (p, decode_from) at h in rw b (decode_from-no_colon (n * 58 + i) s m h')
  ]
]

pub b58decode-no_colon : (s : String) (b : List ℕ) → b58decode s ≡ some b → after_colon s ≡ none
unfolding b58decode
b58decode-no_colon s b h = elim (Option-cases (decode_from 0 s)) [
  | inl p ↦ absurd (cc (rw (p, b58decode) at h))
  | inr (n, p) ↦ decode_from-no_colon 0 s n p
]

-- what `resolve` does with an identifier of the method
pub resolve-join :
    (t : String)
    → after_colon t ≡ none
    → resolve (join "did:wcp:" t) ≡ resolve_identifier (join "did:wcp:" t) t none
unfolding resolve join begins split_colon after_colon before_colon resolve_parts
resolve-join t h = rw (h, split_colon) refl

-- The identifier made from a key of 32 bytes resolves to that key, with no path.
pub resolve-did_from_pubkey :
    (key : List ℕ) (did : String)
    → All IsByte key
    → did_from_pubkey key ≡ some did
    → resolve did ≡ some (record { did = did; public_key = key; path = none })
unfolding did_from_pubkey resolve_identifier
resolve-did_from_pubkey key did bytes h = elim (Bool-cases (nat_beq (length key) 32)) [
  | inr b ↦ absurd (cc (rw b at h))
  | inl b ↦
      let h' = rw b at h in
      let same : join "did:wcp:" (b58encode key) ≡ did =
        ap (λ (o : Option String). elim o [ none ↦ did | some d ↦ d ]) h' in
      let back = b58decode-b58encode key bytes in
      rw (sym same) (
        resolve-join (b58encode key) (b58decode-no_colon (b58encode key) key back)
        ∙ rw (back, resolve_identifier) (rw b refl))
]

-- What a text with a prefix is.
pub begins-join : (p s : String) → begins p s ≡ true → (u : String) × (s ≡ join p u)
unfolding begins join
begins-join Str.[] s h = (s, refl)
begins-join (Str.◌∷◌ c p) Str.[] h = absurd (cc h)
begins-join (Str.◌∷◌ c p) (Str.◌∷◌ d s) h = elim (Bool-cases (nat_beq (code c) (code d))) [
  | inr b ↦ absurd (cc (rw b at h))
  | inl b ↦
      let h' = rw b at h in
      let e : c ≡ d = Char-path c d (nat_beq-eq (code c) (code d) b) in
      let (u, q) = begins-join p s h' in (u, rw e (ap (λ t. Str.◌∷◌ d t) q))
]

after_colon-join :
    (s rest : String) → after_colon s ≡ some rest → s ≡ join (before_colon s) (Str.◌∷◌ ":" rest)
unfolding after_colon before_colon join
after_colon-join Str.[] rest h = absurd (cc h)
after_colon-join (Str.◌∷◌ c s) rest h = elim (Bool-cases (nat_beq (code c) b':')) [
  | inl b ↦
      let h' = rw b at h in
      let e : c ≡ ":" = Char-path c ":" (nat_beq-eq (code c) b':' b) in
      let same : s ≡ rest = ap (λ (o : Option String). elim o [ none ↦ s | some t ↦ t ]) h' in
      rw b (rw e (rw same refl))
  | inr b ↦ let h' = rw b at h in rw b (ap (λ t. Str.◌∷◌ c t) (after_colon-join s rest h'))
]

-- the parts after "did:"
scheme_only :
    (did u : String)
    → after_colon u ≡ none
    → resolve_parts did (split_colon 3 (join "did:" u)) ≡ none
unfolding resolve_parts split_colon after_colon join
scheme_only did u p = rw (p, split_colon) refl

method_part :
    (did u v : String)
    → after_colon u ≡ some v
    → resolve_parts did (split_colon 3 (join "did:" u))
      ≡ resolve_parts did ("did" ∷ before_colon u ∷ split_colon 1 v)
unfolding split_colon after_colon before_colon join
method_part did u v p = rw (p, split_colon) refl

wrong_method :
    (did m : String) (rest : List String)
    → (m == "wcp") ≡ false
    → resolve_parts did ("did" ∷ m ∷ rest) ≡ none
unfolding resolve_parts
wrong_method did m [] b = refl
wrong_method did m (x ∷ rest) b = rw b refl

wcp_text :
    (u v : String)
    → after_colon u ≡ some v
    → before_colon u ≡ "wcp"
    → join "did:" u ≡ join "did:wcp:" v
unfolding join
wcp_text u v p m =
    let whole = after_colon-join u v p in
    ap (join "did:") (whole ∙ ap (λ t. join t (Str.◌∷◌ ":" v)) m)

resolve-begins : (did : String) (r : ResolvedDid) → resolve did ≡ some r → begins "did:" did ≡ true
unfolding resolve
resolve-begins did r h = elim (Bool-cases (begins "did:" did)) [
  | inl b ↦ b
  | inr b ↦ absurd (cc (rw b at h))
]

resolve-parts :
    (did : String) (r : ResolvedDid)
    → resolve did ≡ some r
    → resolve_parts did (split_colon 3 did) ≡ some r
unfolding resolve
resolve-parts did r h = rw (resolve-begins did r h) at h

-- A text that resolves is an identifier of the method.
pub resolve-prefix :
    (did : String) (r : ResolvedDid)
    → resolve did ≡ some r
    → (v : String) × (did ≡ join "did:wcp:" v)
resolve-prefix did r h =
    let (u, q) = begins-join "did:" did (resolve-begins did r h) in
    let parts : resolve_parts did (split_colon 3 (join "did:" u)) ≡ some r =
      ap (λ t. resolve_parts did (split_colon 3 t)) (sym q) ∙ resolve-parts did r h in
    elim (Option-cases (after_colon u)) [
      | inl p ↦ absurd (cc (scheme_only did u p, parts))
      | inr (v, p) ↦ elim (Bool-cases (before_colon u == "wcp")) [
        | inl b ↦ (v, q ∙ wcp_text u v p ((eq_iff _ _).0 b))
        | inr b ↦ absurd (
            cc
              (method_part did u v p, wrong_method did (before_colon u) (split_colon 1 v) b, parts))
      ]
    ]

pub resolve-path :
    (t w : String)
    → after_colon t ≡ some w
    → resolve (join "did:wcp:" t) ≡ resolve_identifier (join "did:wcp:" t) (before_colon t) (some w)
unfolding resolve join begins split_colon after_colon before_colon resolve_parts
resolve-path t w h = rw (h, split_colon) refl

pub identifier-parts :
    (did t : String) (path : Option String) (r : ResolvedDid)
    → resolve_identifier did t path ≡ some r
    → (b58decode t ≡ some r.public_key)
      × (nat_beq (length r.public_key) 32 ≡ true)
      × (r.path ≡ path)
unfolding resolve_identifier
identifier-parts did t path r h = elim (Option-cases (b58decode t)) [
  | inl p ↦ absurd (cc (rw (p, resolve_identifier) at h))
  | inr (key, p) ↦
      let h' = rw (p, resolve_identifier) at h in
      elim (Bool-cases (nat_beq (length key) 32)) [
        | inr b ↦ absurd (cc (rw b at h'))
        | inl b ↦
            let h'' = rw b at h' in
            let same = ap (λ (o : Option ResolvedDid). elim o [ none ↦ r | some x ↦ x ]) h'' in
            rw (sym same) (p, b, refl)
      ]
]

-- An identifier that resolves and has no path is the one made from the key that it resolves to:
-- no key has two identifiers.
pub did_from_pubkey-resolve :
    (did : String) (r : ResolvedDid)
    → resolve did ≡ some r
    → r.path ≡ none
    → did_from_pubkey r.public_key ≡ some did
unfolding did_from_pubkey
did_from_pubkey-resolve did r h pathless =
    let (t, q) = resolve-prefix did r h in
    let there : resolve (join "did:wcp:" t) ≡ some r = ap resolve (sym q) ∙ h in
    elim (Option-cases (after_colon t)) [
      | inr (w, p) ↦
          let parts =
            identifier-parts _ (before_colon t) (some w) r (sym (resolve-path t w p) ∙ there) in
          absurd (cc (parts.2, pathless))
      | inl p ↦
          let parts = identifier-parts _ t none r (sym (resolve-join t p) ∙ there) in
          rw parts.1
            (ap some (ap (join "did:wcp:") (b58encode-b58decode t r.public_key parts.0) ∙ sym q))
    ]
