-- ===== src/Did/RoundTrip.antt =====
-- `_b58encode` and `_b58decode` against each other.
use Prim.Native.Char.{Char, code}
use Prim.Native.String as Str
use text.Mathlib.TextEquality.{Char-path}
use worker_context_protocol.Prelude.{
  ℕ, zero, suc, ◌+◌, ◌*◌, ◌<◌, String, ◌≡◌, refl, sym, ap, ◌∙◌, inl, inr, false, Option, none, some,
  List, [], ◌∷◌, nat_beq, All, Bool-cases, Option-cases, arith,
}
use worker_context_protocol.Did.Base58.{
  b58, char_at, b58_index, index_from, encode_digits, number_from, leading_zeros, with_ones,
  b58encode, decode_from, shortest_bytes, leading_ones, with_zeros, b58decode,
}
use worker_context_protocol.Did.Bytes.{
  IsByte, nat_beq-eq, shortest_bytes-number_from, shortest_bytes-IsShortest, IsShortest,
}
use worker_context_protocol.Did.Digits.{
  leading_ones-digits, leading_ones-with_ones, decode_from-with_ones, decode_from-encode_digits,
  encode_digits-decode_from, b58_index-found, one_digit,
}

with_zeros-shortest_bytes :
    (b : List ℕ)
    → All IsByte b
    → with_zeros (leading_zeros b) (shortest_bytes (number_from 0 b)) ≡ b
unfolding with_zeros leading_zeros number_from shortest_bytes
with_zeros-shortest_bytes [] bytes = refl
with_zeros-shortest_bytes (x ∷ xs) bytes = elim (Bool-cases (nat_beq x 0)) [
  | inl z ↦
      let e : x ≡ 0 = nat_beq-eq x 0 z in
      rw z (rw e (ap (λ l. 0 ∷ l) (with_zeros-shortest_bytes xs bytes.1)))
  | inr z ↦ rw z (shortest_bytes-number_from x xs (ground (arith, z)) bytes)
]

-- Decoding what a byte string encodes to gives the byte string back, leading zeros included.
pub b58decode-b58encode : (b : List ℕ) → All IsByte b → b58decode (b58encode b) ≡ some b
unfolding b58decode b58encode decode_from
b58decode-b58encode b bytes =
    let n = number_from 0 b in
    let digits = encode_digits n n Str.[] in
    let value : decode_from 0 (with_ones (leading_zeros b) digits) ≡ some n =
      decode_from-with_ones (leading_zeros b) digits
      ∙ decode_from-encode_digits n n Str.[] (omega arith) in
    let ones : leading_ones (with_ones (leading_zeros b) digits) ≡ leading_zeros b =
      omega (arith, leading_ones-with_ones (leading_zeros b) digits, leading_ones-digits n) in
    rw (value, b58decode) (rw ones (ap some (with_zeros-shortest_bytes b bytes)))

leading_zeros-with_zeros :
    (k : ℕ) (b : List ℕ) → leading_zeros (with_zeros k b) ≡ k + leading_zeros b
unfolding leading_zeros with_zeros
leading_zeros-with_zeros zero b = omega arith
leading_zeros-with_zeros (suc k) b = omega (arith, leading_zeros-with_zeros k b)

number_from-with_zeros : (k : ℕ) (b : List ℕ) → number_from 0 (with_zeros k b) ≡ number_from 0 b
unfolding number_from with_zeros
number_from-with_zeros zero b = refl
number_from-with_zeros (suc k) b = number_from-with_zeros k b

shortest_bytes-ok : (n : ℕ) → IsShortest n (shortest_bytes n)
unfolding shortest_bytes leading_zeros number_from
shortest_bytes-ok zero = record { lead = refl; number = refl }
shortest_bytes-ok (suc n) = shortest_bytes-IsShortest (suc n) (suc n) (omega arith) (omega arith)

positive : (i : ℕ) (c : Char) → char_at b58 i ≡ c → nat_beq (code c) b'1' ≡ false → 0 < 0 * 58 + i
unfolding char_at
positive zero c found b = absurd (cc (rw (sym found) at b))
positive (suc i) c found b = omega arith

-- a text that begins with another digit than zero
first_digit :
    (c : Char) (s : String) (n : ℕ)
    → nat_beq (code c) b'1' ≡ false
    → decode_from 0 (Str.◌∷◌ c s) ≡ some n
    → encode_digits n n Str.[] ≡ Str.◌∷◌ c s
unfolding decode_from encode_digits
first_digit c s n b h = elim (Option-cases (b58_index c)) [
  | inl p ↦ absurd (cc (rw (p, decode_from) at h))
  | inr (i, p) ↦
      let h' = rw (p, decode_from) at h in
      let (within, found) = b58_index-found c i p in
      let pos : 0 < 0 * 58 + i = positive i c found b in
      encode_digits-decode_from (0 * 58 + i) n s pos h' ∙ one_digit 0 i c s pos within found
]

-- A text that decodes is its ones and the digits of its number.
with_ones-digits :
    (s : String) (n : ℕ)
    → decode_from 0 s ≡ some n
    → with_ones (leading_ones s) (encode_digits n n Str.[]) ≡ s
unfolding with_ones leading_ones decode_from encode_digits index_from
with_ones-digits Str.[] n h =
    let same : 0 ≡ n = ap (λ (o : Option ℕ). elim o [ none ↦ 0 | some i ↦ i ]) h in
    rw (sym same) refl
with_ones-digits (Str.◌∷◌ c s) n h = elim (Bool-cases (nat_beq (code c) b'1')) [
  | inl b ↦
      let e : c ≡ "1" = Char-path c "1" (nat_beq-eq (code c) b'1' b) in
      let h' = rw e at h in rw b (rw e (ap (λ t. Str.◌∷◌ "1" t) (with_ones-digits s n h')))
  | inr b ↦ rw b (first_digit c s n b h)
]

-- The text that decodes to a byte string is the one that the byte string encodes to: no key has two
-- identifiers.
pub b58encode-b58decode : (s : String) (b : List ℕ) → b58decode s ≡ some b → b58encode b ≡ s
unfolding b58decode b58encode
b58encode-b58decode s b h = elim (Option-cases (decode_from 0 s)) [
  | inl p ↦ absurd (cc (rw (p, b58decode) at h))
  | inr (n, p) ↦
      let h' = rw (p, b58decode) at h in
      let k = leading_ones s in
      let bytes = shortest_bytes n in
      let same : with_zeros k bytes ≡ b =
        ap (λ (o : Option (List ℕ)). elim o [ none ↦ b | some l ↦ l ]) h' in
      let zeros : leading_zeros (with_zeros k bytes) ≡ k =
        omega (arith, leading_zeros-with_zeros k bytes, (shortest_bytes-ok n).lead) in
      let number : number_from 0 (with_zeros k bytes) ≡ n =
        number_from-with_zeros k bytes ∙ (shortest_bytes-ok n).number in
      rw (sym same) (rw zeros (rw number (with_ones-digits s n p)))
]
