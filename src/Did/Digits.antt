-- ===== src/Did/Digits.antt =====
-- The digits of a number in the alphabet: the loop of `_b58encode` against the loop of `_b58decode`.
use Prim.Native.Char.{Char, code}
use Prim.Native.String as Str
use text.Mathlib.TextEquality.{Char-path}
use worker_context_protocol.Prelude.{
  ℕ, zero, suc, ◌+◌, ◌*◌, ◌/◌, ◌%◌, ◌<◌, ◌≤◌, String, ◌≡◌, refl, ap, ◌∙◌, inl, inr, Bool, true,
  false, not, ◌||◌, Option, none, some, nat_beq, Bool-cases, Option-cases, all_below,
  all_below-holds, arith,
}
use worker_context_protocol.Did.Base58.{
  b58, char_at, index_from, b58_index, encode_digits, with_ones, decode_from, leading_ones,
}
use worker_context_protocol.Did.Bytes.{nat_beq-eq, nat_beq-false}

abbrev is_index : ℕ → Option ℕ → Bool
is_index j none = false
is_index j (some i) = nat_beq i j

is_index-eq : (j : ℕ) (o : Option ℕ) → is_index j o ≡ true → o ≡ some j
is_index-eq j none h = absurd (cc h)
is_index-eq j (some i) h = ap some (nat_beq-eq i j h)

index_all : all_below (λ j. is_index j (b58_index (char_at b58 j))) 58 ≡ true
unfolding index_from char_at
index_all = refl

-- The alphabet has no character twice.
b58_index-char_at : (j : ℕ) → j < 58 → b58_index (char_at b58 j) ≡ some j
b58_index-char_at j h =
    is_index-eq j _ (all_below-holds (λ k. is_index k (b58_index (char_at b58 k))) 58 j index_all h)

ones_all : all_below (λ j. nat_beq j 0 || not (nat_beq (code (char_at b58 j)) b'1')) 58 ≡ true
unfolding char_at
ones_all = refl

or-right : (a b : Bool) → a ≡ false → (a || not b) ≡ true → b ≡ false
or-right true b p h = absurd (cc p)
or-right false true p h = absurd (cc h)
or-right false false p h = refl

char_at-not_one : (j : ℕ) → 0 < j → j < 58 → nat_beq (code (char_at b58 j)) b'1' ≡ false
char_at-not_one j pos h =
    or-right (nat_beq j 0) _ (nat_beq-false j 0 (λ p. omega (arith, p, pos))) (
      all_below-holds (λ k. nat_beq k 0 || not (nat_beq (code (char_at b58 k)) b'1')) 58 j ones_all
        h)

-- Fuel beyond the number changes nothing, so the loop of `_b58encode` ends.
pub encode_digits-fuel :
    (f g n : ℕ) (out : String) → n ≤ f → n ≤ g → encode_digits f n out ≡ encode_digits g n out
unfolding encode_digits
encode_digits-fuel zero zero n out hf hg = refl
encode_digits-fuel zero (suc g) n out hf hg = let e : n ≡ 0 = omega (arith, hf) in rw e refl
encode_digits-fuel (suc f) zero n out hf hg = let e : n ≡ 0 = omega (arith, hg) in rw e refl
encode_digits-fuel (suc f) (suc g) n out hf hg = elim (Bool-cases (nat_beq n 0)) [
  | inl b ↦ rw b refl
  | inr b ↦
      let pos : 0 < n = ground (arith, b) in
      rw b (encode_digits-fuel f g (n / 58) _ (omega (arith, hf, pos)) (omega (arith, hg, pos)))
]

-- Reading the digits of a number and what follows is reading on from the number.
pub decode_from-encode_digits :
    (f n : ℕ) (out : String) → n ≤ f → decode_from 0 (encode_digits f n out) ≡ decode_from n out
unfolding encode_digits decode_from
decode_from-encode_digits zero n out h = let e : n ≡ 0 = omega (arith, h) in rw e refl
decode_from-encode_digits (suc f) n out h = elim (Bool-cases (nat_beq n 0)) [
  | inl b ↦ let e : n ≡ 0 = nat_beq-eq n 0 b in rw b (rw e refl)
  | inr b ↦
      let pos : 0 < n = ground (arith, b) in
      let value : n / 58 * 58 + n % 58 ≡ n = omega arith in
      rw b (
        decode_from-encode_digits f (n / 58) _ (omega (arith, h, pos))
        ∙ rw (b58_index-char_at (n % 58) (omega arith), decode_from) (rw value refl))
]

leading_ones-encode_digits :
    (f n : ℕ) (out : String) → 0 < n → n ≤ f → leading_ones (encode_digits f n out) ≡ 0
unfolding encode_digits leading_ones
leading_ones-encode_digits zero n out pos h = absurd (omega (arith, pos, h))
leading_ones-encode_digits (suc f) n out pos h =
    rw (nat_beq-false n 0 (λ p. omega (arith, p, pos))) (elim (Bool-cases (nat_beq (n / 58) 0)) [
      | inr b ↦ leading_ones-encode_digits f (n / 58) _ (ground (arith, b)) (omega (arith, h, pos))
      | inl b ↦
          let e : n / 58 ≡ 0 = nat_beq-eq (n / 58) 0 b in
          rw e (
            rw (encode_digits-fuel f 0 0 _ (omega arith) (omega arith))
              (rw (char_at-not_one (n % 58) (omega (arith, e, pos)) (omega arith)) refl))
    ])

-- the loop started on any number
pub leading_ones-digits : (n : ℕ) → leading_ones (encode_digits n n Str.[]) ≡ 0
unfolding encode_digits leading_ones
leading_ones-digits zero = refl
leading_ones-digits (suc n) =
    leading_ones-encode_digits (suc n) (suc n) Str.[] (omega arith) (omega arith)

pub leading_ones-with_ones :
    (k : ℕ) (s : String) → leading_ones (with_ones k s) ≡ k + leading_ones s
unfolding leading_ones with_ones
leading_ones-with_ones zero s = omega arith
leading_ones-with_ones (suc k) s = omega (arith, leading_ones-with_ones k s)

pub decode_from-with_ones : (k : ℕ) (s : String) → decode_from 0 (with_ones k s) ≡ decode_from 0 s
unfolding decode_from with_ones index_from
decode_from-with_ones zero s = refl
decode_from-with_ones (suc k) s = decode_from-with_ones k s

-- What an index found says: it is within the alphabet, and the character stands there.
abbrev text_length : String → ℕ
text_length Str.[] = 0
text_length (Str.◌∷◌ c s) = suc (text_length s)

index_from-char_at :
    (k : ℕ) (c : Char) (s : String) (j : ℕ)
    → index_from k c s ≡ some j
    → (d : ℕ) × (j ≡ k + d) × (d < text_length s) × (char_at s d ≡ c)
unfolding index_from char_at
index_from-char_at k c Str.[] j h = absurd (cc h)
index_from-char_at k c (Str.◌∷◌ x s) j h = elim (Bool-cases (nat_beq (code x) (code c))) [
  | inl b ↦
      let h' = rw b at h in
      let same : k ≡ j = ap (λ (o : Option ℕ). elim o [ none ↦ k | some i ↦ i ]) h' in
      (0, omega (arith, same), omega arith, Char-path x c (nat_beq-eq (code x) (code c) b))
  | inr b ↦
      let h' = rw b at h in
      let (d, at, within, found) = index_from-char_at (k + 1) c s j h' in
      (suc d, omega (arith, at), omega (arith, within), found)
]

pub b58_index-found : (c : Char) (j : ℕ) → b58_index c ≡ some j → (j < 58) × (char_at b58 j ≡ c)
b58_index-found c j h =
    let (d, at, within, found) = index_from-char_at 0 c b58 j h in
    let same : j ≡ d = omega (arith, at) in rw same (within, found)

-- One round of the loop of `_b58encode` gives back the last character read.
pub one_digit :
    (m i : ℕ) (c : Char) (s : String)
    → 0 < m * 58 + i
    → i < 58
    → char_at b58 i ≡ c
    → encode_digits (m * 58 + i) (m * 58 + i) s ≡ encode_digits m m (Str.◌∷◌ c s)
unfolding encode_digits
one_digit m i c s pos within found =
    let high : (m * 58 + i) / 58 ≡ m = omega (arith, within) in
    let low : (m * 58 + i) % 58 ≡ i = omega (arith, within) in
    encode_digits-fuel (m * 58 + i) (suc (m * 58 + i)) (m * 58 + i) s (omega arith) (omega arith)
    ∙ rw (nat_beq-false (m * 58 + i) 0 (λ p. omega (arith, p, pos))) (
        rw high
          (rw low (rw found (encode_digits-fuel (m * 58 + i) m m _ (omega arith) (omega arith)))))

-- The digits of a number read from a text are the digits of where the reading began, and the text.
pub encode_digits-decode_from :
    (m n : ℕ) (s : String)
    → 0 < m
    → decode_from m s ≡ some n
    → encode_digits n n Str.[] ≡ encode_digits m m s
unfolding decode_from encode_digits
encode_digits-decode_from m n Str.[] pos h =
    let same : m ≡ n = ap (λ (o : Option ℕ). elim o [ none ↦ m | some i ↦ i ]) h in rw same refl
encode_digits-decode_from m n (Str.◌∷◌ c s) pos h = elim (Option-cases (b58_index c)) [
  | inl p ↦ absurd (cc (rw (p, decode_from) at h))
  | inr (i, p) ↦
      let h' = rw (p, decode_from) at h in
      let (within, found) = b58_index-found c i p in
      encode_digits-decode_from (m * 58 + i) n s (omega (arith, pos)) h'
      ∙ one_digit m i c s (omega (arith, pos)) within found
]
