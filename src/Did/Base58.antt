-- ===== src/Did/Base58.antt =====
-- `_b58encode` and `_b58decode`, with the integer conversions of Python that they call. A byte string
-- is a list of numbers.
use Prim.Native.Char.{Char, code, nul}
use Prim.Native.String as Str
use worker_context_protocol.Prelude.{
  ℕ, zero, suc, ◌+◌, ◌*◌, ◌/◌, ◌%◌, String, Option, none, some, List, [], ◌∷◌, ◌++◌, nat_beq,
  if◌then◌else◌,
}

abbrev pub b58 : String
b58 = "123456789ABCDEFGHJKLMNPQRSTUVWXYZabcdefghijkmnopqrstuvwxyz"

-- `s[n]`
unfoldable pub char_at : String → ℕ → Char
char_at Str.[] n = nul
char_at (Str.◌∷◌ c s) zero = c
char_at (Str.◌∷◌ c s) (suc n) = char_at s n

-- the index of a character in a text whose first character has the index `i`
unfoldable pub index_from : ℕ → Char → String → Option ℕ
index_from i c Str.[] = none
index_from i c (Str.◌∷◌ x s) =
    let later = index_from (i + 1) c s in if nat_beq (code x) (code c) then some i else later

-- `_B58_MAP.get(c)`
abbrev pub b58_index : Char → Option ℕ
b58_index c = index_from 0 c b58

-- the loop of `_b58encode`, with fuel
unfoldable pub encode_digits : ℕ → ℕ → String → String
encode_digits zero n out = out
encode_digits (suc fuel) n out =
    let rest = encode_digits fuel (n / 58) (Str.◌∷◌ (char_at b58 (n % 58)) out) in
    if nat_beq n 0 then out else rest

-- `int.from_bytes(b, "big")`, after the bytes whose number is `n`
unfoldable pub number_from : ℕ → List ℕ → ℕ
number_from n [] = n
number_from n (x ∷ xs) = number_from (n * 256 + x) xs

-- `len(b) - len(b.lstrip(b"\x00"))`
unfoldable pub leading_zeros : List ℕ → ℕ
leading_zeros [] = 0
leading_zeros (x ∷ xs) = let rest = leading_zeros xs in if nat_beq x 0 then suc rest else 0

-- `"1" * pad + out`
unfoldable pub with_ones : ℕ → String → String
with_ones zero out = out
with_ones (suc n) out = Str.◌∷◌ "1" (with_ones n out)

unfoldable pub b58encode : List ℕ → String
b58encode b = let n = number_from 0 b in with_ones (leading_zeros b) (encode_digits n n Str.[])

-- the loop of `_b58decode`, none for the ValueError
unfoldable pub decode_from : ℕ → String → Option ℕ
decode_from n Str.[] = some n
decode_from n (Str.◌∷◌ c s) = elim (b58_index c) [
  | none ↦ none
  | some i ↦ decode_from (n * 58 + i) s
]

-- `n.bit_length()`, with fuel
unfoldable pub bits : ℕ → ℕ → ℕ
bits zero n = 0
bits (suc fuel) n = let rest = bits fuel (n / 2) in if nat_beq n 0 then 0 else suc rest

abbrev pub bit_length : ℕ → ℕ
bit_length n = bits n n

-- `n.to_bytes(k, "big")`
unfoldable pub to_bytes : ℕ → ℕ → List ℕ
to_bytes zero n = []
to_bytes (suc k) n = to_bytes k (n / 256) ++ (n % 256) ∷ []

-- `n.to_bytes((n.bit_length() + 7) // 8, "big") if n else b""`
unfoldable pub shortest_bytes : ℕ → List ℕ
shortest_bytes n = if nat_beq n 0 then [] else to_bytes ((bit_length n + 7) / 8) n

-- `len(s) - len(s.lstrip("1"))`
unfoldable pub leading_ones : String → ℕ
leading_ones Str.[] = 0
leading_ones (Str.◌∷◌ c s) =
    let rest = leading_ones s in if nat_beq (code c) b'1' then suc rest else 0

-- `b"\x00" * pad + full`
unfoldable pub with_zeros : ℕ → List ℕ → List ℕ
with_zeros zero b = b
with_zeros (suc n) b = 0 ∷ with_zeros n b

unfoldable pub b58decode : String → Option (List ℕ)
b58decode s = elim (decode_from 0 s) [
  | none ↦ none
  | some n ↦ some (with_zeros (leading_ones s) (shortest_bytes n))
]
