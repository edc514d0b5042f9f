-- ===== src/Result.antt =====
-- The exceptions of the coordinator's services as values.
use worker_context_protocol.Prelude.{String, Bool, true, false, ◌≡◌, refl, ◌⊎◌, inl, inr}

-- `value_error` carries the literal text of the message up to its first interpolated value;
-- `crash` is an exception that no handler of the dispatcher names (TypeError, AttributeError,
-- KeyError, and DIDResolutionError outside a `try`); `row_refused` is the IntegrityError or the
-- driver's error of a flush, which rolls the transaction back.
pub data Error : Type 0 where
  task_not_found task_preempted task_state_invalid crash row_refused : Error
  value_error : String → Error

pub data Result {ℓ} (A : Type ℓ) : Type ℓ where
  err : Error → Result A
  ok : A → Result A

infixl 5 ◌>>=◌ ◌>>◌
abbrev pub ◌>>=◌ {ℓ κ} : {A : Type ℓ} {B : Type κ} → Result A → (A → Result B) → Result B
err e >>= next = err e
ok a >>= next = next a

abbrev pub ◌>>◌ {ℓ} : {B : Type ℓ} → Result (Unit {0}) → Result B → Result B
first >> second = first >>= λ _. second

-- `if test: raise e`
abbrev pub raise_if : Bool → Error → Result (Unit {0})
raise_if true e = err e
raise_if false e = ok tt

pub Result-cases {ℓ} :
    {A : Type ℓ} (r : Result A) → ((e : Error) × (r ≡ err e)) ⊎ ((a : A) × (r ≡ ok a))
Result-cases (ok a) = inr (a, refl)
Result-cases (err e) = inl (e, refl)
