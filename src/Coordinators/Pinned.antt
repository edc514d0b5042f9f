-- ===== src/Coordinators/Pinned.antt =====
-- What requests can do to a registered key.
use worker_context_protocol.Prelude.{
  String, ◌≡◌, ◌≢◌, refl, sym, ap, ◌∙◌, ◌⊎◌, inl, inr, true, false, Option, none, some, List, [],
  ◌∷◌, ◌++◌, ◌==◌, eq_iff, Bool-cases, Exists, here, later,
}
use mathlib.Core.Path.{subst}
use worker_context_protocol.Coordinators.{Libraries, CoordinatorDescriptor, Coordinator, dump}
use worker_context_protocol.Coordinators.Effects.{
  Stores, register_coordinator-effect, delete_coordinator-effect,
}
use worker_context_protocol.Coordinators.Service.{
  Table, find_coordinator, write_coordinator, delete_row, row_of, updated, Request, post, delete,
  handle, handle_all,
}
use worker_context_protocol.Coordinators.Signature.{verify_descriptor_signature}
use worker_context_protocol.Result.{ok}

find-head :
    (did : String) (r : Coordinator) (rest : Table)
    → (r.did == did) ≡ true
    → find_coordinator did (r ∷ rest) ≡ some r
unfolding find_coordinator
find-head did r rest h = rw h refl

find-tail :
    (did : String) (r : Coordinator) (rest : Table)
    → (r.did == did) ≡ false
    → find_coordinator did (r ∷ rest) ≡ find_coordinator did rest
unfolding find_coordinator
find-tail did r rest h = rw h refl

-- The row that is found under the identifier has the key.
abbrev pub HasKey : String → String → Table → Type 0
HasKey did key table =
    (row : Coordinator) × (find_coordinator did table ≡ some row) × (row.public_key_multibase ≡ key)

pub find_coordinator-did :
    (did : String) (table : Table) (row : Coordinator)
    → find_coordinator did table ≡ some row
    → row.did ≡ did
unfolding find_coordinator
find_coordinator-did did [] row h = absurd (cc h)
find_coordinator-did did (r ∷ rest) row h = elim (Bool-cases (r.did == did)) [
  | inl b ↦
      ap (λ (o : Option Coordinator). elim o [ none ↦ did | some x ↦ x.did ])
        (sym h ∙ find-head did r rest b)
      ∙ (eq_iff _ _).0 b
  | inr b ↦ find_coordinator-did did rest row (sym (find-tail did r rest b) ∙ h)
]

append-HasKey :
    (did key : String) (table more : Table) → HasKey did key table → HasKey did key (table ++ more)
unfolding find_coordinator
append-HasKey did key [] more (row, f, k) = absurd (cc f)
append-HasKey did key (r ∷ rest) more (row, f, k) = elim (Bool-cases (r.did == did)) [
  | inl b ↦ (row, find-head did r (rest ++ more) b ∙ sym (find-head did r rest b) ∙ f, k)
  | inr b ↦
      let (row', f', k') =
        append-HasKey did key rest more (row, sym (find-tail did r rest b) ∙ f, k) in
      (row', find-tail did r (rest ++ more) b ∙ f', k')
]

skip-HasKey :
    (did key : String) (r : Coordinator) (rest : Table)
    → (r.did == did) ≡ false
    → HasKey did key rest
    → HasKey did key (r ∷ rest)
skip-HasKey did key r rest b (row, f, k) = (row, find-tail did r rest b ∙ f, k)

drop-HasKey :
    (did key : String) (r : Coordinator) (rest : Table)
    → (r.did == did) ≡ false
    → HasKey did key (r ∷ rest)
    → HasKey did key rest
drop-HasKey did key r rest b (row, f, k) = (row, sym (find-tail did r rest b) ∙ f, k)

-- the key of the row at the head
head-key :
    (did key : String) (r : Coordinator) (rest : Table)
    → (r.did == did) ≡ true
    → HasKey did key (r ∷ rest)
    → r.public_key_multibase ≡ key
head-key did key r rest b (row, f, k) =
    ap (λ (o : Option Coordinator). elim o [ none ↦ key | some x ↦ x.public_key_multibase ])
      (sym (find-head did r rest b) ∙ f)
    ∙ k

-- the row that takes the place has the identifier and the key of the one that was found
write-HasKey :
    (did key id : String) (new : Coordinator) (table : Table)
    → new.did ≡ id
    → HasKey id new.public_key_multibase table
    → HasKey did key table
    → HasKey did key (write_coordinator id new table)
unfolding write_coordinator
write-HasKey did key id new [] same old (row, f, k) = (row, f, k)
write-HasKey did key id new (r ∷ rest) same old h = elim (Bool-cases (r.did == id)) [
  | inl b ↦
      let alike : r.did ≡ new.did = (eq_iff _ _).0 b ∙ sym same in
      rw b (elim (Bool-cases (r.did == did)) [
        | inl c ↦ (
          new,
          find-head did new rest (subst (λ t. (t == did) ≡ true) alike c),
          sym (head-key id new.public_key_multibase r rest b old) ∙ head-key did key r rest c h,
        )
        | inr c ↦
            skip-HasKey did key new rest (subst (λ t. (t == did) ≡ false) alike c)
              (drop-HasKey did key r rest c h)
      ])
  | inr b ↦ rw b (elim (Bool-cases (r.did == did)) [
    | inl c ↦ (r, find-head did r (write_coordinator id new rest) c, head-key did key r rest c h)
    | inr c ↦ skip-HasKey did key r (write_coordinator id new rest) c (
        write-HasKey did key id new rest same (drop-HasKey id new.public_key_multibase r rest b old)
          (drop-HasKey did key r rest c h))
  ])
]

delete-HasKey :
    (did key id : String) (table : Table)
    → id ≢ did
    → HasKey did key table
    → HasKey did key (delete_row id table)
unfolding delete_row
delete-HasKey did key id [] other h = h
delete-HasKey did key id (r ∷ rest) other h = elim (Bool-cases (r.did == did)) [
  | inl c ↦ elim (Bool-cases (r.did == id)) [
    | inl b ↦ absurd (other (sym ((eq_iff _ _).0 b) ∙ (eq_iff _ _).0 c))
    | inr b ↦ rw b (r, find-head did r (delete_row id rest) c, head-key did key r rest c h)
  ]
  | inr c ↦ elim (Bool-cases (r.did == id)) [
    | inl b ↦ rw b (drop-HasKey did key r rest c h)
    | inr b ↦ rw b (
        skip-HasKey did key r (delete_row id rest) c
          (delete-HasKey did key id rest other (drop-HasKey did key r rest c h)))
  ]
]

-- A request to delete the coordinator, with a descriptor of that key whose signature verifies.
abbrev pub IsOwnersDelete : Libraries → String → String → Request → Type 0
IsOwnersDelete libs did key (post d) = ⊥
IsOwnersDelete libs did key (delete path d) =
    (path ≡ did)
    × (d.did ≡ did)
    × (d.public_key_multibase ≡ key)
    × (verify_descriptor_signature libs (dump d) ≡ ok true)

stored-HasKey :
    (did key : String) (d : CoordinatorDescriptor) (table new : Table)
    → Stores d table new
    → HasKey did key table
    → HasKey did key new
stored-HasKey did key d table new (inl (f, e)) h =
    subst (HasKey did key) (sym e) (append-HasKey did key table (row_of d ∷ []) h)
stored-HasKey did key d table new (inr (row, f, k, e)) h = subst (HasKey did key) (sym e) (
    write-HasKey did key d.did (updated d row) table (find_coordinator-did d.did table row f)
      (row, f, refl) h)

handle-HasKey :
    (libs : Libraries) (did key : String) (r : Request) (table : Table)
    → HasKey did key table
    → HasKey did key (handle libs r table).1 ⊎ IsOwnersDelete libs did key r
handle-HasKey libs did key (post d) table h = elim (register_coordinator-effect libs d table) [
  | inl e ↦ inl (subst (HasKey did key) (sym e) h)
  | inr (v, s) ↦ inl (stored-HasKey did key d table _ s h)
]
handle-HasKey libs did key (delete path d) table h =
    elim (delete_coordinator-effect libs path d table) [
      | inl e ↦ inl (subst (HasKey did key) (sym e) h)
      | inr (p, v, row, f, k, e) ↦ elim (Bool-cases (path == did)) [
        | inr b ↦ inl (
            subst (HasKey did key) (sym e)
              (delete-HasKey did key path table (λ q. absurd (cc (b, (eq_iff _ _).1 q))) h))
        | inl b ↦
            let same = (eq_iff path did).0 b in
            let found = subst (λ t. find_coordinator t table ≡ some row) same f in
            inr (
              same,
              p ∙ same,
              sym k
                  ∙ ap
                      (λ (o : Option Coordinator). elim o [
                        | none ↦ key
                        | some x ↦ x.public_key_multibase
                      ])
                      (sym found ∙ h.1)
                  ∙ h.2,
              v,
            )
      ]
    ]

-- The key of a registered coordinator stays, whatever requests the registry handles, unless one of
-- them is a delete of that coordinator with a descriptor of the same key whose signature verifies.
pub registered_key_pinned :
    (libs : Libraries) (did key : String) (requests : List Request) (table : Table)
    → HasKey did key table
    → HasKey did key (handle_all libs requests table)
      ⊎ Exists (IsOwnersDelete libs did key) requests
registered_key_pinned libs did key [] table h = inl h
registered_key_pinned libs did key (r ∷ rest) table h =
    elim (handle-HasKey libs did key r table h) [
      | inr owner ↦ inr (here owner)
      | inl h' ↦ elim (registered_key_pinned libs did key rest (handle libs r table).1 h') [
        | inl h'' ↦ inl h''
        | inr owner ↦ inr (later owner)
      ]
    ]
