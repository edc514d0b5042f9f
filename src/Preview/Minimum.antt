-- ===== src/Preview/Minimum.antt =====
-- The order of the trust classes, and what a check of the minimum says.
use worker_context_protocol.Prelude.{
  ℕ, ◌≤◌, ◌⊎◌, ◌∙◌, sym, arith, Option-cases, none, String, ◌≡◌, refl, inl, inr, Bool, true, false,
  Option, some, List, [], ◌∷◌, leb, ◌==◌, eq_iff, Bool-cases, Exists, here, later,
}
use worker_context_protocol.Json.{Value, str, bool, Fields, obj, end, get, get_or}
use worker_context_protocol.Json.Builtins.{truthy, as_dict, iterate, value_eq}
use worker_context_protocol.Result.{ok, Result-cases}
use worker_context_protocol.Preview.Trust.{
  TrustClass, software_keypair, hardware_attested_tpm2, hardware_attested_webauthn,
  hardware_attested_secure_enclave, hardware_attested_tee, delegated, is_at_least,
  is_hardware_attested, key_qualifies, some_key_qualifies, trust_class_of, keys_of, check_minimum,
  is_other_key, verify_minimum_trust_class,
}

-- The order of the document: software keys, hardware, delegation.
abbrev pub rank : TrustClass → ℕ
rank software_keypair = 0
rank delegated = 2
rank _ = 1

-- Without the strict flag, a class is at least another when its rank is.
pub is_at_least-rank :
    (declared minimum : TrustClass)
    → is_at_least declared minimum false ≡ leb (rank minimum) (rank declared)
unfolding is_at_least is_hardware_attested
is_at_least-rank software_keypair software_keypair = refl
is_at_least-rank software_keypair hardware_attested_tpm2 = refl
is_at_least-rank software_keypair hardware_attested_webauthn = refl
is_at_least-rank software_keypair hardware_attested_secure_enclave = refl
is_at_least-rank software_keypair hardware_attested_tee = refl
is_at_least-rank software_keypair delegated = refl
is_at_least-rank hardware_attested_tpm2 software_keypair = refl
is_at_least-rank hardware_attested_tpm2 hardware_attested_tpm2 = refl
is_at_least-rank hardware_attested_tpm2 hardware_attested_webauthn = refl
is_at_least-rank hardware_attested_tpm2 hardware_attested_secure_enclave = refl
is_at_least-rank hardware_attested_tpm2 hardware_attested_tee = refl
is_at_least-rank hardware_attested_tpm2 delegated = refl
is_at_least-rank hardware_attested_webauthn software_keypair = refl
is_at_least-rank hardware_attested_webauthn hardware_attested_tpm2 = refl
is_at_least-rank hardware_attested_webauthn hardware_attested_webauthn = refl
is_at_least-rank hardware_attested_webauthn hardware_attested_secure_enclave = refl
is_at_least-rank hardware_attested_webauthn hardware_attested_tee = refl
is_at_least-rank hardware_attested_webauthn delegated = refl
is_at_least-rank hardware_attested_secure_enclave software_keypair = refl
is_at_least-rank hardware_attested_secure_enclave hardware_attested_tpm2 = refl
is_at_least-rank hardware_attested_secure_enclave hardware_attested_webauthn = refl
is_at_least-rank hardware_attested_secure_enclave hardware_attested_secure_enclave = refl
is_at_least-rank hardware_attested_secure_enclave hardware_attested_tee = refl
is_at_least-rank hardware_attested_secure_enclave delegated = refl
is_at_least-rank hardware_attested_tee software_keypair = refl
is_at_least-rank hardware_attested_tee hardware_attested_tpm2 = refl
is_at_least-rank hardware_attested_tee hardware_attested_webauthn = refl
is_at_least-rank hardware_attested_tee hardware_attested_secure_enclave = refl
is_at_least-rank hardware_attested_tee hardware_attested_tee = refl
is_at_least-rank hardware_attested_tee delegated = refl
is_at_least-rank delegated software_keypair = refl
is_at_least-rank delegated hardware_attested_tpm2 = refl
is_at_least-rank delegated hardware_attested_webauthn = refl
is_at_least-rank delegated hardware_attested_secure_enclave = refl
is_at_least-rank delegated hardware_attested_tee = refl
is_at_least-rank delegated delegated = refl

-- What the document asks of a class: the order of the ranks, and under the strict flag the class
-- itself, where the minimum is more than software keys.
abbrev pub Suffices : Bool → TrustClass → TrustClass → Type 0
Suffices false minimum declared = rank minimum ≤ rank declared
Suffices true minimum declared = (minimum ≡ software_keypair) ⊎ (declared ≡ minimum)

-- A class of a higher rank than the minimum is enough without the flag.
ranked-Suffices :
    (minimum declared : TrustClass)
    → is_at_least declared minimum false ≡ true
    → Suffices false minimum declared
ranked-Suffices minimum declared h =
    let ranked : leb (rank minimum) (rank declared) ≡ true =
      sym (is_at_least-rank declared minimum) ∙ h in
    ground (arith, ranked)

strict-Suffices :
    (minimum declared : TrustClass)
    → is_at_least declared minimum true ≡ true
    → Suffices true minimum declared
unfolding is_at_least is_hardware_attested
strict-Suffices software_keypair declared h = inl refl
strict-Suffices hardware_attested_tpm2 hardware_attested_tpm2 h = inr refl
strict-Suffices hardware_attested_tpm2 _ h = absurd (cc h)
strict-Suffices hardware_attested_webauthn hardware_attested_webauthn h = inr refl
strict-Suffices hardware_attested_webauthn _ h = absurd (cc h)
strict-Suffices hardware_attested_secure_enclave hardware_attested_secure_enclave h = inr refl
strict-Suffices hardware_attested_secure_enclave _ h = absurd (cc h)
strict-Suffices hardware_attested_tee hardware_attested_tee h = inr refl
strict-Suffices hardware_attested_tee _ h = absurd (cc h)
strict-Suffices delegated delegated h = inr refl
strict-Suffices delegated _ h = absurd (cc h)

is_at_least-Suffices :
    (strict : Bool) (minimum declared : TrustClass)
    → is_at_least declared minimum strict ≡ true
    → Suffices strict minimum declared
is_at_least-Suffices false minimum declared h = ranked-Suffices minimum declared h
is_at_least-Suffices true minimum declared h = strict-Suffices minimum declared h

-- The key has the identifier that is asked for, if one is.
abbrev pub IsAsked : Option String → Fields → Type 0
IsAsked none k = Unit
IsAsked (some id) k = value_eq (get "key_id" k) (str id) ≡ true

-- A dict of the key that is asked for, whose class, software keys where it has none, suffices.
abbrev pub IsQualified : Option String → TrustClass → Bool → Value → Type 0
IsQualified key_id minimum strict v =
    (k : Fields) × (as_dict v ≡ ok k)
    × IsAsked key_id k
    × (declared : TrustClass) × (trust_class_of (get_or "trust_class" (str "software-keypair") k)
        ≡ some declared)
    × Suffices strict minimum declared

asked : (key_id : Option String) (k : Fields) → is_other_key key_id k ≡ false → IsAsked key_id k
asked none k h = tt
asked (some id) k h = elim (Bool-cases (value_eq (get "key_id" k) (str id))) [
  | inl b ↦ b
  | inr b ↦ absurd (cc (rw b at h))
]

key_qualifies-IsQualified :
    (key_id : Option String) (minimum : TrustClass) (strict : Bool) (v : Value) (k : Fields)
    → as_dict v ≡ ok k
    → key_qualifies key_id minimum strict k ≡ true
    → IsQualified key_id minimum strict v
unfolding key_qualifies
key_qualifies-IsQualified key_id minimum strict v k p h =
    elim (Bool-cases (is_other_key key_id k)) [
      | inl b ↦ absurd (cc (rw b at h))
      | inr b ↦
          let h' = rw b at h in
          elim (Option-cases (trust_class_of (get_or "trust_class" (str "software-keypair") k))) [
            | inl t ↦ absurd (cc (rw t at h'))
            | inr (declared, t) ↦ (
              k,
              p,
              asked key_id k b,
              declared,
              t,
              is_at_least-Suffices strict minimum declared (rw t at h'),
            )
          ]
    ]

some_key_qualifies-Exists :
    (key_id : Option String) (minimum : TrustClass) (strict : Bool) (vs : List Value)
    → some_key_qualifies key_id minimum strict vs ≡ ok true
    → Exists (IsQualified key_id minimum strict) vs
unfolding some_key_qualifies
some_key_qualifies-Exists key_id minimum strict [] h = absurd (cc h)
some_key_qualifies-Exists key_id minimum strict (v ∷ rest) h = elim (Result-cases (as_dict v)) [
  | inl (e, p) ↦ absurd (cc (rw p at h))
  | inr (k, p) ↦
      let h' = rw p at h in
      elim (Bool-cases (key_qualifies key_id minimum strict k)) [
        | inl b ↦ here (key_qualifies-IsQualified key_id minimum strict v k p b)
        | inr b ↦
            let h'' = rw b at h' in later (some_key_qualifies-Exists key_id minimum strict rest h'')
      ]
]

class-truthy : (v : Value) (m : TrustClass) → trust_class_of v ≡ some m → truthy v ≡ true
unfolding trust_class_of
class-truthy (str s) m h = elim (Bool-cases (s == "")) [
  | inl b ↦ let e : s ≡ "" = (eq_iff s "").0 b in absurd (cc (rw e at h))
  | inr b ↦ rw b refl
]
class-truthy _ m h = absurd (cc h)

check_minimum-Exists :
    (key_id : Option String) (strict : Bool) (capability : Fields) (minimum : TrustClass)
    (keys : Value) (entries : List Value)
    → keys_of capability ≡ ok keys
    → iterate keys ≡ ok entries
    → check_minimum key_id strict capability (some minimum) ≡ ok true
    → Exists (IsQualified key_id minimum strict) entries
check_minimum-Exists key_id strict capability minimum keys entries p q h =
    let h' = rw p at h in
    elim (Bool-cases (truthy keys)) [
      | inr b ↦ absurd (cc (rw b at h'))
      | inl b ↦
          let h'' = rw (b, q) at h' in some_key_qualifies-Exists key_id minimum strict entries h''
    ]

-- Where a task names a trust class as its minimum and the check accepts the worker, one of the
-- worker's keys has the identifier that is asked for, if one is, and declares a class (software keys
-- where it names none) that is at least the minimum in the document's order or, under the strict
-- flag, is the minimum itself unless that is software keys.
pub accepted_key_qualifies :
    (task capability req : Fields) (key_id : Option String) (minimum : TrustClass) (keys : Value)
    (entries : List Value)
    → as_dict (get_or "attestation_requirement" (obj end) task) ≡ ok req
    → trust_class_of (get "minimum_trust_class" req) ≡ some minimum
    → keys_of capability ≡ ok keys
    → iterate keys ≡ ok entries
    → verify_minimum_trust_class task capability key_id ≡ ok true
    → Exists
        (IsQualified key_id minimum (truthy (get_or "minimum_trust_class_strict" (bool false) req)))
        entries
unfolding verify_minimum_trust_class
accepted_key_qualifies task capability req key_id minimum keys entries r m p q h =
    let h' = rw r at h in
    let h'' = rw (class-truthy (get "minimum_trust_class" req) minimum m) at h' in
    let h''' = rw m at h'' in check_minimum-Exists key_id _ capability minimum keys entries p q h'''
