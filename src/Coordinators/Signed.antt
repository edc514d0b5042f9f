-- ===== src/Coordinators/Signed.antt =====
-- What the rows of the registry hold, over every request.
use mathlib.Core.Path.{subst}
use worker_context_protocol.Prelude.{
  ℕ, Bool, Option-cases, some, arith, length, nat_beq, All-map, String, ◌≡◌, ◌∙◌, refl, sym, ap,
  inl, inr, true, List, [], ◌∷◌, ◌==◌, All, All-append, Bool-cases,
}
use worker_context_protocol.Json.{Value, Fields, str, get, get_or, has}
use worker_context_protocol.Json.Builtins.{as_str}
use worker_context_protocol.Coordinators.{Libraries, CoordinatorDescriptor, Coordinator, dump}
use worker_context_protocol.Coordinators.Effects.{
  Stores, register_coordinator-effect, delete_coordinator-effect,
}
use worker_context_protocol.Coordinators.Pinned.{find_coordinator-did}
use worker_context_protocol.Coordinators.Service.{
  Table, write_coordinator, delete_row, row_of, updated, Request, post, delete, handle, handle_all,
}
use worker_context_protocol.Coordinators.Signature.{
  verify_descriptor_signature, decode_multibase_pubkey, canonicalise_for_signing, check_key,
}
use worker_context_protocol.Result.{Result, ok, err, Result-cases}

-- The stored descriptor passes the check of its signature, and it is the descriptor of the row's columns.
abbrev IsSigned : Libraries → Coordinator → Type 0
IsSigned libs row =
    (verify_descriptor_signature libs row.descriptor_json ≡ ok true)
    × (get "did" row.descriptor_json ≡ str row.did)
    × (get "public_key_multibase" row.descriptor_json ≡ str row.public_key_multibase)

write_coordinator-IsSigned :
    (libs : Libraries) (id : String) (new : Coordinator) (table : Table)
    → IsSigned libs new
    → All (IsSigned libs) table
    → All (IsSigned libs) (write_coordinator id new table)
unfolding write_coordinator
write_coordinator-IsSigned libs id new [] s h = tt
write_coordinator-IsSigned libs id new (r ∷ rest) s h = elim (Bool-cases (r.did == id)) [
  | inl b ↦ rw b (s, h.1)
  | inr b ↦ rw b (h.0, write_coordinator-IsSigned libs id new rest s h.1)
]

delete_row-IsSigned :
    (libs : Libraries) (id : String) (table : Table)
    → All (IsSigned libs) table
    → All (IsSigned libs) (delete_row id table)
unfolding delete_row
delete_row-IsSigned libs id [] h = tt
delete_row-IsSigned libs id (r ∷ rest) h = elim (Bool-cases (r.did == id)) [
  | inl b ↦ rw b h.1
  | inr b ↦ rw b (h.0, delete_row-IsSigned libs id rest h.1)
]

stored-IsSigned :
    (libs : Libraries) (d : CoordinatorDescriptor) (table new : Table)
    → verify_descriptor_signature libs (dump d) ≡ ok true
    → Stores d table new
    → All (IsSigned libs) table
    → All (IsSigned libs) new
stored-IsSigned libs d table new v (inl (f, e)) h =
    subst (All (IsSigned libs)) (sym e)
      (All-append (IsSigned libs) table (row_of d ∷ []) h ((v, refl, refl), tt))
stored-IsSigned libs d table new v (inr (row, f, k, e)) h = subst (All (IsSigned libs)) (sym e) (
    write_coordinator-IsSigned libs d.did (updated d row) table
      (v, ap str (sym (find_coordinator-did d.did table row f)), ap str (sym k)) h)

handle-IsSigned :
    (libs : Libraries) (r : Request) (table : Table)
    → All (IsSigned libs) table
    → All (IsSigned libs) (handle libs r table).1
handle-IsSigned libs (post d) table h = elim (register_coordinator-effect libs d table) [
  | inl e ↦ subst (All (IsSigned libs)) (sym e) h
  | inr (v, s) ↦ stored-IsSigned libs d table _ v s h
]
handle-IsSigned libs (delete path d) table h = elim (delete_coordinator-effect libs path d table) [
  | inl e ↦ subst (All (IsSigned libs)) (sym e) h
  | inr (p, v, row, f, k, e) ↦
      subst (All (IsSigned libs)) (sym e) (delete_row-IsSigned libs path table h)
]

handle_all-IsSigned :
    (libs : Libraries) (requests : List Request) (table : Table)
    → All (IsSigned libs) table
    → All (IsSigned libs) (handle_all libs requests table)
handle_all-IsSigned libs [] table h = h
handle_all-IsSigned libs (r ∷ rest) table h =
    handle_all-IsSigned libs rest (handle libs r table).1 (handle-IsSigned libs r table h)

as_str-eq : (v : Value) (s : String) → as_str v ≡ ok s → v ≡ str s
as_str-eq (str s) t h = ap str (ap (λ (r : Result String). elim r [ ok x ↦ x | err e ↦ s ]) h)
as_str-eq _ t h = absurd (cc h)

-- The key of the multibase text is 32 bytes long, and PyNaCl verifies the signature of the canonical
-- dict with it.
pub record IsVerified (libs : Libraries) (multibase : String) (descriptor : Fields) : Type 0 where
  pub key : List ℕ
  pub decoded : decode_multibase_pubkey multibase ≡ some key
  pub sized : length key ≡ 32
  pub text : String
  pub given : get_or "signature" (str "") descriptor ≡ str text
  pub sig : List ℕ
  pub read : libs.decode_padded text ≡ some sig
  pub holds : libs.nacl_verify key (canonicalise_for_signing libs descriptor) sig ≡ some true

check_key-IsVerified :
    (libs : Libraries) (multibase : String) (f : Fields)
    → check_key libs (decode_multibase_pubkey multibase) f ≡ ok true
    → IsVerified libs multibase f
check_key-IsVerified libs multibase f h = elim (Option-cases (decode_multibase_pubkey multibase)) [
  | inl d ↦ absurd (cc (rw d at h))
  | inr (key, d) ↦
      let h1 = rw d at h in
      elim (Bool-cases (nat_beq (length key) 32)) [
        | inr n ↦ absurd (cc (rw n at h1))
        | inl n ↦
            let h2 = rw n at h1 in
            elim (Result-cases (as_str (get_or "signature" (str "") f))) [
              | inl (e, g) ↦ absurd (cc (rw g at h2))
              | inr (text, g) ↦
                  let h3 = rw g at h2 in
                  elim (Option-cases (libs.decode_padded text)) [
                    | inl q ↦ absurd (cc (rw q at h3))
                    | inr (sig, q) ↦
                        let h4 = rw q at h3 in
                        elim (Option-cases
                          (libs.nacl_verify key (canonicalise_for_signing libs f) sig)) [
                            | inl v ↦ absurd (cc (rw v at h4))
                            | inr (good, v) ↦
                                let same : good ≡ true =
                                  ap (λ (r : Result Bool). elim r [ ok x ↦ x | err e ↦ good ])
                                    (rw v at h4) in
                                record {
                                  key = key;
                                  decoded = d;
                                  sized = ground (arith, n);
                                  text = text;
                                  given = as_str-eq _ text g;
                                  sig = sig;
                                  read = q;
                                  holds = v ∙ ap some same;
                                }
                          ]
                  ]
            ]
      ]
]

verified :
    (libs : Libraries) (row : Coordinator)
    → libs.has_nacl ≡ true
    → IsSigned libs row
    → IsVerified libs row.public_key_multibase row.descriptor_json
unfolding verify_descriptor_signature canonicalise_for_signing
verified libs row nacl (h, did, named) =
    let h1 = rw nacl at h in
    elim (Bool-cases (has "public_key_multibase" row.descriptor_json)) [
      | inr b ↦ absurd (cc (rw b at h1))
      | inl b ↦
          let h2 = rw b at h1 in
          check_key-IsVerified libs row.public_key_multibase row.descriptor_json (rw named at h2)
    ]

-- Where PyNaCl can be imported, whatever requests the registry has handled, each row's key is 32
-- bytes long and PyNaCl verifies with it the signature of the stored descriptor, whose identifier and
-- key are those of the row's columns.
pub registered_rows-IsVerified :
    (libs : Libraries) (requests : List Request)
    → libs.has_nacl ≡ true
    → All
        (λ row.
          IsVerified libs row.public_key_multibase row.descriptor_json
          × (get "did" row.descriptor_json ≡ str row.did)
          × (get "public_key_multibase" row.descriptor_json ≡ str row.public_key_multibase))
        (handle_all libs requests [])
registered_rows-IsVerified libs requests nacl =
    All-map (λ row s. (verified libs row nacl s, s.1, s.2)) (handle_all libs requests [])
      (handle_all-IsSigned libs requests [] tt)
