-- ===== src/Did/Bytes.antt =====
-- The bytes of a number: how many there are, and back.
use mathlib.Core.Path.{subst}
use mathlib.Core.List.{append-nil}
use worker_context_protocol.Prelude.{
  ℕ, zero, suc, ◌+◌, ◌*◌, ◌/◌, ◌%◌, ◌<◌, ◌≤◌, ◌≡◌, ◌≢◌, refl, sym, ap, ◌∙◌, inl, inr, Bool, true,
  false, ◌||◌, all_below, all_below-holds, List, [], ◌∷◌, ◌++◌, nat_beq, ltb, All, Bool-cases,
  length, arith,
}
use worker_context_protocol.Did.Base58.{
  number_from, bits, bit_length, to_bytes, shortest_bytes, leading_zeros,
}

pub nat_beq-eq : (m n : ℕ) → nat_beq m n ≡ true → m ≡ n
nat_beq-eq m n h = ground (arith, h)

pub nat_beq_self : (m : ℕ) → nat_beq m m ≡ true
nat_beq_self m = ground arith

pub nat_beq-false : (m n : ℕ) → m ≢ n → nat_beq m n ≡ false
nat_beq-false m n h = elim (Bool-cases (nat_beq m n)) [
  | inl b ↦ absurd (h (nat_beq-eq m n b))
  | inr b ↦ b
]

abbrev pub IsByte : ℕ → Type 0
IsByte n = n < 256

-- Fuel beyond the number changes nothing.
bits-fuel : (f g n : ℕ) → n ≤ f → n ≤ g → bits f n ≡ bits g n
unfolding bits
bits-fuel zero zero n hf hg = refl
bits-fuel zero (suc g) n hf hg = let e : n ≡ 0 = omega (arith, hf) in rw e refl
bits-fuel (suc f) zero n hf hg = let e : n ≡ 0 = omega (arith, hg) in rw e refl
bits-fuel (suc f) (suc g) n hf hg = elim (Bool-cases (nat_beq n 0)) [
  | inl b ↦ rw b refl
  | inr b ↦
      let pos : 0 < n = ground (arith, b) in
      rw b (ap suc (bits-fuel f g (n / 2) (omega (arith, hf, pos)) (omega (arith, hg, pos))))
]

bit_length-half : (n : ℕ) → 0 < n → bit_length n ≡ suc (bit_length (n / 2))
unfolding bits
bit_length-half zero h = absurd (omega (arith, h))
bit_length-half (suc n) h =
    rw (nat_beq-false (suc n) 0 (λ p. omega (arith, p)))
      (ap suc (bits-fuel n (suc n / 2) (suc n / 2) (omega arith) (omega arith)))

halved : (m k : ℕ) → 0 < m → m / 2 ≡ k → bit_length m ≡ 1 + bit_length k
halved m k h e = rw (sym e) (omega (arith, bit_length-half m h))

-- Eight halvings take a byte off.
bit_length-byte : (n x : ℕ) → 0 < n → x < 256 → bit_length (n * 256 + x) ≡ 8 + bit_length n
bit_length-byte n x h b =
    let h0 = halved (n * 256 + x) (n * 128 + x / 2) (omega (arith, h)) (omega arith) in
    let h1 = halved (n * 128 + x / 2) (n * 64 + x / 4) (omega (arith, h)) (omega arith) in
    let h2 = halved (n * 64 + x / 4) (n * 32 + x / 8) (omega (arith, h)) (omega arith) in
    let h3 = halved (n * 32 + x / 8) (n * 16 + x / 16) (omega (arith, h)) (omega arith) in
    let h4 = halved (n * 16 + x / 16) (n * 8 + x / 32) (omega (arith, h)) (omega arith) in
    let h5 = halved (n * 8 + x / 32) (n * 4 + x / 64) (omega (arith, h)) (omega arith) in
    let h6 = halved (n * 4 + x / 64) (n * 2 + x / 128) (omega (arith, h)) (omega arith) in
    let h7 = halved (n * 2 + x / 128) n (omega (arith, h)) (omega (arith, b)) in
    omega (arith, h0, h1, h2, h3, h4, h5, h6, h7)

byte_count : ℕ → ℕ
byte_count n = (bit_length n + 7) / 8

byte_count-byte : (n x : ℕ) → 0 < n → x < 256 → byte_count (n * 256 + x) ≡ suc (byte_count n)
unfolding byte_count
byte_count-byte n x h b = omega (arith, bit_length-byte n x h b)

-- the numbers from 1 to 255 have between one and eight bits
abbrev one_byte : ℕ → Bool
one_byte n = nat_beq n 0 || nat_beq (byte_count n) 1

one_byte_all : all_below one_byte 256 ≡ true
unfolding byte_count bits
one_byte_all = refl

one_byte-count : (n : ℕ) → nat_beq n 0 ≡ false → one_byte n ≡ true → nat_beq (byte_count n) 1 ≡ true
one_byte-count n z h = rw z at h

byte_count-small : (n : ℕ) → 0 < n → n < 256 → byte_count n ≡ 1
byte_count-small n h b = nat_beq-eq (byte_count n) 1 (
    one_byte-count n (nat_beq-false n 0 (λ p. omega (arith, p, h)))
      (all_below-holds one_byte 256 n one_byte_all b))

-- The number of bytes grows with each byte read.
byte_count-number_from :
    (n : ℕ) (b : List ℕ)
    → 0 < n
    → All IsByte b
    → byte_count (number_from n b) ≡ byte_count n + length b
unfolding number_from
byte_count-number_from n [] h bytes = omega arith
byte_count-number_from n (x ∷ xs) h bytes = omega (
  arith,
  byte_count-number_from (n * 256 + x) xs (omega (arith, h)) bytes.1,
  byte_count-byte n x h bytes.0,
)

list_assoc : (xs ys zs : List ℕ) → (xs ++ ys) ++ zs ≡ xs ++ (ys ++ zs)
list_assoc [] ys zs = refl
list_assoc (x ∷ xs) ys zs = ap (λ l. x ∷ l) (list_assoc xs ys zs)

-- Writing a number of bytes undoes reading them.
to_bytes-number_from :
    (k n : ℕ) (b : List ℕ)
    → All IsByte b
    → to_bytes (length b + k) (number_from n b) ≡ to_bytes k n ++ b
unfolding to_bytes number_from
to_bytes-number_from k n [] bytes =
    let e : length {A = ℕ} [] + k ≡ k = omega arith in rw e (sym (append-nil (to_bytes k n)))
to_bytes-number_from k n (x ∷ xs) bytes =
    let e : length (x ∷ xs) + k ≡ length xs + suc k = omega arith in
    let high : (n * 256 + x) / 256 ≡ n = omega (arith, bytes.0) in
    let low : (n * 256 + x) % 256 ≡ x = omega (arith, bytes.0) in
    rw e (
      to_bytes-number_from (suc k) (n * 256 + x) xs bytes.1
      ∙ rw high (rw low (list_assoc (to_bytes k n) (x ∷ []) xs)))

number_from-positive : (n : ℕ) (b : List ℕ) → 0 < n → 0 < number_from n b
unfolding number_from
number_from-positive n [] h = h
number_from-positive n (x ∷ xs) h = number_from-positive (n * 256 + x) xs (omega (arith, h))

-- The shortest bytes of the number of a byte string without a leading zero are the string.
pub shortest_bytes-number_from :
    (x : ℕ) (b : List ℕ)
    → 0 < x
    → All IsByte (x ∷ b)
    → shortest_bytes (number_from 0 (x ∷ b)) ≡ x ∷ b
unfolding shortest_bytes number_from byte_count to_bytes
shortest_bytes-number_from x b h bytes =
    let n = number_from (0 * 256 + x) b in
    let pos : 0 < n = number_from-positive (0 * 256 + x) b (omega (arith, h)) in
    let one : byte_count (0 * 256 + x) ≡ 1 =
      byte_count-small (0 * 256 + x) (omega (arith, h)) (omega (arith, bytes.0)) in
    let count : byte_count n ≡ length (x ∷ b) + 0 =
      omega (arith, one, byte_count-number_from (0 * 256 + x) b (omega (arith, h)) bytes.1) in
    rw (nat_beq-false n 0 (λ p. omega (arith, p, pos)))
      (rw count (to_bytes-number_from 0 0 (x ∷ b) bytes))

-- What the shortest bytes of a positive number are.
pub record IsShortest (n : ℕ) (b : List ℕ) : Type 0 where
  pub lead : leading_zeros b ≡ 0
  pub number : number_from 0 b ≡ n

number_from-snoc :
    (n : ℕ) (b : List ℕ) (y : ℕ) → number_from n (b ++ y ∷ []) ≡ number_from n b * 256 + y
unfolding number_from
number_from-snoc n [] y = refl
number_from-snoc n (x ∷ xs) y = number_from-snoc (n * 256 + x) xs y

leading_zeros-append :
    (b c : List ℕ) → leading_zeros b ≡ 0 → 0 < number_from 0 b → leading_zeros (b ++ c) ≡ 0
unfolding leading_zeros number_from
leading_zeros-append [] c h pos = absurd (omega (arith, pos))
leading_zeros-append (x ∷ xs) c h pos = elim (Bool-cases (nat_beq x 0)) [
  | inl z ↦ let h' = rw z at h in absurd (omega (arith, h'))
  | inr z ↦ rw z refl
]

snoc-IsShortest :
    (m y : ℕ) (b : List ℕ) → 0 < m → IsShortest m b → IsShortest (m * 256 + y) (b ++ y ∷ [])
snoc-IsShortest m y b pos h = record {
  lead = leading_zeros-append b (y ∷ []) h.lead (rw h.number pos);
  number = rw (number_from-snoc 0 b y) (rw h.number refl);
}

shortest_bytes-positive : (n : ℕ) → 0 < n → shortest_bytes n ≡ to_bytes (byte_count n) n
unfolding shortest_bytes byte_count
shortest_bytes-positive n h = rw (nat_beq-false n 0 (λ p. omega (arith, p, h))) refl

shortest_bytes-snoc :
    (m y : ℕ) → 0 < m → y < 256 → shortest_bytes (m * 256 + y) ≡ shortest_bytes m ++ y ∷ []
unfolding to_bytes
shortest_bytes-snoc m y h b =
    let high : (m * 256 + y) / 256 ≡ m = omega (arith, b) in
    let low : (m * 256 + y) % 256 ≡ y = omega (arith, b) in
    rw (shortest_bytes-positive (m * 256 + y) (omega (arith, h)))
      (rw (shortest_bytes-positive m h) (rw (byte_count-byte m y h b) (rw high (rw low refl))))

shortest_bytes-one : (n : ℕ) → 0 < n → n < 256 → shortest_bytes n ≡ n ∷ []
unfolding to_bytes
shortest_bytes-one n h b =
    let low : n % 256 ≡ n = omega (arith, b) in
    rw (shortest_bytes-positive n h) (rw (byte_count-small n h b) (rw low refl))

one-IsShortest : (n : ℕ) → 0 < n → IsShortest n (n ∷ [])
unfolding leading_zeros number_from
one-IsShortest n h = record {
  lead = rw (nat_beq-false n 0 (λ p. omega (arith, p, h))) refl;
  number = omega arith;
}

pub shortest_bytes-IsShortest : (fuel n : ℕ) → n ≤ fuel → 0 < n → IsShortest n (shortest_bytes n)
shortest_bytes-IsShortest zero n le pos = absurd (omega (arith, le, pos))
shortest_bytes-IsShortest (suc fuel) n le pos = elim (Bool-cases (ltb n 256)) [
  | inl b ↦
      let small : n < 256 = ground (arith, b) in
      rw (shortest_bytes-one n pos small) (one-IsShortest n pos)
  | inr b ↦
      let large : 256 ≤ n = ground (arith, b) in
      let split : n ≡ n / 256 * 256 + n % 256 = omega arith in
      let high : 0 < n / 256 = omega (arith, large) in
      let low : n % 256 < 256 = omega arith in
      let less : n / 256 ≤ fuel = omega (arith, le, pos) in
      subst (λ k. IsShortest k (shortest_bytes k)) (sym split)
        (rw (shortest_bytes-snoc (n / 256) (n % 256) high low) (
          snoc-IsShortest (n / 256) (n % 256) (shortest_bytes (n / 256)) high
            (shortest_bytes-IsShortest fuel (n / 256) less high)))
]
