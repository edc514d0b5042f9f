-- ===== src/Json/Builtins.antt =====
-- Truth value, membership, iteration, `int()` and set building on decoded JSON values.
-- A Python TypeError or AttributeError is the error `crash`.
use Prim.Native.Nat.{Ordering}
use Prim.Native.String as Str
use text.Mathlib.Text.{find?}
use worker_context_protocol.Prelude.{
  ℕ, ◌/◌, ◌^◌, String, Bool, true, false, not, ◌&&◌, Option, none, some, List, [], ◌∷◌, ◌==◌, any,
  all, length, nat_beq, if◌then◌else◌,
}
use worker_context_protocol.Prelude.Int.{ℤ, pos, pos_part, neg_part, sub_ℕ, eqb_ℤ, leb_ℤ, scale}
use worker_context_protocol.Json.Data.{
  Value, null, bool, int, float, str, arr, obj, Items, nil, cons, Fields, end, field, get, has,
  items, keys,
}
use worker_context_protocol.Result.{Result, ok, err, crash, ◌>>=◌}

-- `bool(v)`
abbrev pub truthy : Value → Bool
truthy null = false
truthy (bool b) = b
truthy (int z) = not (eqb_ℤ z (pos 0))
truthy (float m e) = not (eqb_ℤ m (pos 0))
truthy (str s) = not (s == "")
truthy (arr nil) = false
truthy (arr (cons v vs)) = true
truthy (obj end) = false
truthy (obj (field k v f)) = true

-- `v or d`
abbrev pub or_else : Value → Value → Value
or_else v d = if truthy v then v else d

-- what `v.get(…)` needs
abbrev pub as_dict : Value → Result Fields
as_dict (obj f) = ok f
as_dict _ = err crash

-- what a method of `str` needs
abbrev pub as_str : Value → Result String
as_str (str s) = ok s
as_str _ = err crash

-- `isinstance(v, int)`; a Python bool is an int
abbrev pub is_int : Value → Bool
is_int (int z) = true
is_int (bool b) = true
is_int _ = false

-- A number as a fraction `m / 2 ^ e`.
abbrev pub number_of : Value → Option (ℤ × ℕ)
number_of (bool true) = some (pos 1, 0)
number_of (bool false) = some (pos 0, 0)
number_of (int z) = some (z, 0)
number_of (float m e) = some (m, e)
number_of _ = none

abbrev number_eq : Option (ℤ × ℕ) → Option (ℤ × ℕ) → Bool
number_eq (some (m, e)) (some (n, d)) = eqb_ℤ (scale m (2 ^ d)) (scale n (2 ^ e))
number_eq _ _ = false

-- `a == b` on hashable values: 1, 1.0 and True are one value.
abbrev pub scalar_eq : Value → Value → Bool
scalar_eq null null = true
scalar_eq (str s) (str t) = s == t
scalar_eq a b = number_eq (number_of a) (number_of b)

abbrev pub hashable : Value → Bool
hashable (arr xs) = false
hashable (obj f) = false
hashable _ = true

-- `v == "text"`
abbrev pub is_text : String → Value → Bool
is_text k (str s) = s == k
is_text k _ = false

abbrev pub is_some {ℓ} : {A : Type ℓ} → Option A → Bool
is_some none = false
is_some (some a) = true

-- `k in v` for a text k
abbrev pub contains_text : String → Value → Result Bool
contains_text k (arr xs) = ok (any (is_text k) (items xs))
contains_text k (obj f) = ok (has k f)
contains_text k (str s) = ok (is_some (find? s k))
contains_text k _ = err crash

abbrev pub characters : String → List Value
characters Str.[] = []
characters (Str.◌∷◌ c s) = str (Str.◌∷◌ c Str.[]) ∷ characters s

-- the values that `for x in v` runs through
abbrev pub iterate : Value → Result (List Value)
iterate (arr xs) = ok (items xs)
iterate (obj f) = ok (keys f)
iterate (str s) = ok (characters s)
iterate _ = err crash

abbrev pub member : Value → List Value → Bool
member v xs = any (scalar_eq v) xs

-- `set(xs)`, kept as a list that is only tested for membership
abbrev pub set_of : List Value → Result (List Value)
set_of xs = if all hashable xs then ok xs else err crash

-- `a.issubset(b)`
abbrev pub subset : List Value → List Value → Bool
subset xs ys = all (λ x. member x ys) xs

-- `v["k"]`: a missing key is a KeyError, and what is not a dict cannot be indexed by a text
abbrev pub index : String → Value → Result Value
index k (obj f) = if has k f then ok (get k f) else err crash
index k _ = err crash

-- a float's integer part, toward zero
abbrev pub truncate : ℤ → ℕ → ℤ
truncate m e = sub_ℕ (pos_part m / 2 ^ e) (neg_part m / 2 ^ e)

-- `a == b` on any two values; dicts compare without the order of their keys.
unfoldable mutual
  pub value_eq : Value → Value → Bool
  value_eq (arr xs) (arr ys) = items_eq xs ys
  value_eq (obj f) (obj g) = nat_beq (length (keys f)) (length (keys g)) && fields_eq f g
  value_eq (obj f) _ = false
  value_eq (arr f) _ = false
  value_eq a b = scalar_eq a b

  pub items_eq : Items → Items → Bool
  items_eq nil nil = true
  items_eq (cons x xs) (cons y ys) = value_eq x y && items_eq xs ys
  items_eq _ _ = false

  pub fields_eq : Fields → Fields → Bool
  fields_eq end g = true
  fields_eq (field k v f) g = has k g && value_eq v (get k g) && fields_eq f g

abbrev number_leb : Option (ℤ × ℕ) → Option (ℤ × ℕ) → Result Bool
number_leb (some (m, e)) (some (n, d)) = ok (leb_ℤ (scale m (2 ^ d)) (scale n (2 ^ e)))
number_leb _ _ = err crash

-- `a <= b`: texts by code point, numbers by size, and a TypeError for any other pair
abbrev pub ordered : Value → Value → Result Bool
ordered (str s) (str t) = ok (elim (Str.compare s t) [ Ordering.gt ↦ false | _ ↦ true ])
ordered a b = number_leb (number_of a) (number_of b)

abbrev insert_sorted : Value → List Value → Result (List Value)
insert_sorted v [] = ok (v ∷ [])
insert_sorted v (x ∷ xs) =
    let later = insert_sorted v xs in
    do first ← ordered v x; if first then ok (v ∷ x ∷ xs) else (do ys ← later; ok (x ∷ ys))

-- `sorted(xs)`
abbrev pub sorted : List Value → Result (List Value)
sorted [] = ok []
sorted (x ∷ xs) = do ys ← sorted xs; insert_sorted x ys

-- the elements of a set: of equal values the last one
abbrev pub dedup : List Value → List Value
dedup [] = []
dedup (x ∷ xs) = let rest = dedup xs in if member x xs then rest else x ∷ rest
