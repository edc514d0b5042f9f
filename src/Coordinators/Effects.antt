-- ===== src/Coordinators/Effects.antt =====
-- What a request changes in the table.
use worker_context_protocol.Prelude.{
  String, ◌≡◌, refl, ◌⊎◌, inl, inr, true, false, none, some, [], ◌∷◌, ◌++◌, ◌==◌, eq_iff,
  Bool-cases, Option-cases,
}
use worker_context_protocol.Coordinators.{
  Libraries, CoordinatorDescriptor, Coordinator, dump, is_valid,
}
use worker_context_protocol.Coordinators.Service.{
  Table, find_coordinator, write_coordinator, delete_row, row_of, updated, register_coordinator,
  delete_coordinator,
}
use worker_context_protocol.Coordinators.Signature.{verify_descriptor_signature}
use worker_context_protocol.Result.{ok, Result-cases}

-- The row is added, or the row of the same key is updated.
abbrev pub Stores : CoordinatorDescriptor → Table → Table → Type 0
Stores d table new =
    ((find_coordinator d.did table ≡ none) × (new ≡ table ++ row_of d ∷ []))
    ⊎ ((row : Coordinator) × (find_coordinator d.did table ≡ some row)
        × (row.public_key_multibase ≡ d.public_key_multibase)
        × (new ≡ write_coordinator d.did (updated d row) table))

pub register_coordinator-effect :
    (libs : Libraries) (d : CoordinatorDescriptor) (table : Table)
    → ((register_coordinator libs d table).1 ≡ table)
      ⊎ ((verify_descriptor_signature libs (dump d) ≡ ok true)
          × Stores d table (register_coordinator libs d table).1)
unfolding register_coordinator
register_coordinator-effect libs d table = elim (Bool-cases (is_valid libs d)) [
  | inr v ↦ inl (rw v refl)
  | inl v ↦ elim (Result-cases (verify_descriptor_signature libs (dump d))) [
    | inl (e, p) ↦ inl (rw (v, p) refl)
    | inr (false, p) ↦ inl (rw (v, p) refl)
    | inr (true, p) ↦ elim (Option-cases (find_coordinator d.did table)) [
      | inl f ↦ inr (p, inl (f, rw (v, p, f) refl))
      | inr (row, f) ↦ elim (Bool-cases (row.public_key_multibase == d.public_key_multibase)) [
        | inr k ↦ inl (rw (v, p, f, k) refl)
        | inl k ↦ inr (p, inr (row, f, (eq_iff _ _).0 k, rw (v, p, f, k) refl))
      ]
    ]
  ]
]

-- The row is removed on the word of its key.
abbrev pub Removes : Libraries → String → CoordinatorDescriptor → Table → Table → Type 0
Removes libs did d table new =
    (d.did ≡ did)
    × (verify_descriptor_signature libs (dump d) ≡ ok true)
    × (row : Coordinator) × (find_coordinator did table ≡ some row)
    × (row.public_key_multibase ≡ d.public_key_multibase)
    × (new ≡ delete_row did table)

pub delete_coordinator-effect :
    (libs : Libraries) (did : String) (d : CoordinatorDescriptor) (table : Table)
    → ((delete_coordinator libs did d table).1 ≡ table)
      ⊎ Removes libs did d table (delete_coordinator libs did d table).1
unfolding delete_coordinator
delete_coordinator-effect libs did d table = elim (Bool-cases (is_valid libs d)) [
  | inr v ↦ inl (rw v refl)
  | inl v ↦ elim (Bool-cases (d.did == did)) [
    | inr b ↦ inl (rw (v, b) refl)
    | inl b ↦ elim (Result-cases (verify_descriptor_signature libs (dump d))) [
      | inl (e, p) ↦ inl (rw (v, b, p) refl)
      | inr (false, p) ↦ inl (rw (v, b, p) refl)
      | inr (true, p) ↦ elim (Option-cases (find_coordinator did table)) [
        | inl f ↦ inl (rw (v, b, p, f) refl)
        | inr (row, f) ↦ elim (Bool-cases (row.public_key_multibase == d.public_key_multibase)) [
          | inr k ↦ inl (rw (v, b, p, f, k) refl)
          | inl k ↦ inr ((eq_iff _ _).0 b, p, row, f, (eq_iff _ _).0 k, rw (v, b, p, f, k) refl)
        ]
      ]
    ]
  ]
]
