-- ===== src/Json/Data.antt =====
-- The Python values that a JSON document decodes to. A finite float is `m / 2 ^ e`.
use Prim.Native.Nat.{ℕ}
use Prim.Native.String.{String}
use mathlib.Core.Bool.{Bool, false, ◌||◌}
use text.Mathlib.Text.{◌==◌}
use worker_context_protocol.Prelude.{List, [], ◌∷◌, if◌then◌else◌}
use worker_context_protocol.Prelude.Int.{ℤ}

mutual
  pub data Value : Type 0 where
    null : Value
    bool : Bool → Value
    str : String → Value
    int : ℤ → Value
    float : ℤ → ℕ → Value
    obj : Fields → Value
    arr : Items → Value

  -- the pairs of a dict, in insertion order
  pub data Fields : Type 0 where
    field : String → Value → Fields → Fields
    end : Fields

  -- the elements of a list
  pub data Items : Type 0 where
    cons : Value → Items → Items
    nil : Items

-- `d.get(k)`: a missing key gives None.
abbrev pub get : String → Fields → Value
get k end = null
get k (field j v f) = let rest = get k f in if j == k then v else rest

-- `k in d`
abbrev pub has : String → Fields → Bool
has k end = false
has k (field j v f) = j == k || has k f

-- `d.get(k, default)`
abbrev pub get_or : String → Value → Fields → Value
get_or k d f = if has k f then get k f else d

-- `d[k] = v`: the key keeps its place, a new one goes to the end.
abbrev pub put : String → Value → Fields → Fields
put k v end = field k v end
put k v (field j w f) = let rest = put k v f in if j == k then field j v f else field j w rest

abbrev pub items : Items → List Value
items nil = []
items (cons v vs) = v ∷ items vs

abbrev pub of_list : List Value → Items
of_list [] = nil
of_list (v ∷ vs) = cons v (of_list vs)

abbrev pub keys : Fields → List Value
keys end = []
keys (field k v f) = str k ∷ keys f
