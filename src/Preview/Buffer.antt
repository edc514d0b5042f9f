-- ===== src/Preview/Buffer.antt =====
-- The buffered chain over the operations of its class.
use mathlib.Core.Path.{subst}
use worker_context_protocol.Prelude.{
  if◌then◌else◌, ℕ, ◌≤◌, String, ◌≡◌, refl, sym, ◌∙◌, inl, inr, Bool, true, false, Option, none,
  some, List, [], ◌∷◌, ◌++◌, ◌==◌, eq_iff, leb, length, length-append, Bool-cases, arith,
}
use worker_context_protocol.Platform.{Platform}
use worker_context_protocol.Audit.{same_hash}
use worker_context_protocol.Preview.Lite.{
  AuditEntry, BufferedAuditChain, Submission, append, is_full, make_entry, expected_hash,
  integrity_from, clear, replay_batch, replay_on_reconnect, empty_buffer, verify_chain_integrity,
}

-- A call on the buffer: an append at a time's text, a clear, or a replay.
pub data Operation : Type 0 where
  add : String → Submission → Operation
  wipe : Operation
  replay : (List AuditEntry → Bool) → Operation

unfoldable pub apply : Platform → Operation → BufferedAuditChain → BufferedAuditChain
apply py (add now s) chain = (append py now s chain).1
apply py wipe chain = clear chain
apply py (replay submit) chain = (replay_on_reconnect py submit chain).1

unfoldable pub operate : Platform → List Operation → BufferedAuditChain → BufferedAuditChain
operate py [] chain = chain
operate py (op ∷ ops) chain = operate py ops (apply py op chain)

-- the hash that a series of entries ends with
abbrev end_hash : Option String → List AuditEntry → Option String
end_hash prev [] = prev
end_hash prev (e ∷ rest) = end_hash (some e.entry_hash) rest

end_hash-snoc :
    (prev : Option String) (es : List AuditEntry) (e : AuditEntry)
    → end_hash prev (es ++ e ∷ []) ≡ some e.entry_hash
end_hash-snoc prev [] e = refl
end_hash-snoc prev (x ∷ es) e = end_hash-snoc (some x.entry_hash) es e

same_hash_self : (h : Option String) → same_hash h h ≡ true
same_hash_self none = refl
same_hash_self (some s) = (eq_iff s s).1 refl

integrity_from-snoc :
    (py : Platform) (prev : Option String) (es : List AuditEntry) (e : AuditEntry)
    → integrity_from py prev es ≡ true
    → (e.entry_hash == expected_hash py e) ≡ true
    → e.previous_entry_hash ≡ end_hash prev es
    → integrity_from py prev (es ++ e ∷ []) ≡ true
unfolding integrity_from
integrity_from-snoc py prev [] e w hash link = rw hash (rw link (rw (same_hash_self prev) refl))
integrity_from-snoc py prev (x ∷ es) e w hash link =
    elim (Bool-cases (x.entry_hash == expected_hash py x)) [
      | inr a ↦ absurd (cc (rw a at w))
      | inl a ↦
          let w' = rw a at w in
          elim (Bool-cases (same_hash x.previous_entry_hash prev)) [
            | inr b ↦ absurd (cc (rw b at w'))
            | inl b ↦
                let w'' = rw b at w' in
                rw a (rw b (integrity_from-snoc py (some x.entry_hash) es e w'' hash link))
          ]
    ]

-- Within its capacity, linked, and with the last hash kept.
pub record IsIntact (py : Platform) (chain : BufferedAuditChain) : Type 0 where
  pub bounded : length chain.entries ≤ chain.capacity
  pub linked : verify_chain_integrity py chain ≡ true
  pub kept : chain.last_hash ≡ end_hash none chain.entries

make_entry-hash :
    (py : Platform) (now : String) (s : Submission) (prev : Option String)
    → ((make_entry py now s prev).entry_hash == expected_hash py (make_entry py now s prev)) ≡ true
unfolding make_entry
make_entry-hash py now s prev = (eq_iff _ _).1 refl

make_entry-link :
    (py : Platform) (now : String) (s : Submission) (prev : Option String)
    → (make_entry py now s prev).previous_entry_hash ≡ prev
unfolding make_entry
make_entry-link py now s prev = refl

append-IsIntact :
    (py : Platform) (now : String) (s : Submission) (chain : BufferedAuditChain)
    → IsIntact py chain
    → IsIntact py (append py now s chain).1
unfolding append is_full
append-IsIntact py now s chain h = elim (Bool-cases (leb chain.capacity (length chain.entries))) [
  | inl b ↦ rw b h
  | inr b ↦
      let e = make_entry py now s chain.last_hash in
      rw b (record {
        bounded = ground (arith, b, length-append chain.entries (e ∷ []));
        linked =
            integrity_from-snoc py none chain.entries e h.linked
              (make_entry-hash py now s chain.last_hash)
              (make_entry-link py now s chain.last_hash ∙ h.kept);
        kept = sym (end_hash-snoc none chain.entries e);
      })
]

clear-IsIntact : (py : Platform) (chain : BufferedAuditChain) → IsIntact py (clear chain)
unfolding clear integrity_from
clear-IsIntact py chain = record { bounded = omega arith; linked = refl; kept = refl }

replay_batch-IsIntact :
    (py : Platform) (submit : List AuditEntry → Bool) (chain : BufferedAuditChain)
    (es : List AuditEntry)
    → IsIntact py chain
    → IsIntact py (replay_batch py submit chain es).1
unfolding replay_batch
replay_batch-IsIntact py submit chain [] h = h
replay_batch-IsIntact py submit chain (e ∷ es) h =
    rw h.linked (elim (Bool-cases (submit (e ∷ es))) [
      | inl b ↦ rw b (clear-IsIntact py chain)
      | inr b ↦ rw b h
    ])

apply-IsIntact :
    (py : Platform) (op : Operation) (chain : BufferedAuditChain)
    → IsIntact py chain
    → IsIntact py (apply py op chain)
unfolding apply replay_on_reconnect
apply-IsIntact py (add now s) chain h = append-IsIntact py now s chain h
apply-IsIntact py wipe chain h = clear-IsIntact py chain
apply-IsIntact py (replay submit) chain h = replay_batch-IsIntact py submit chain chain.entries h

operate-IsIntact :
    (py : Platform) (ops : List Operation) (chain : BufferedAuditChain)
    → IsIntact py chain
    → IsIntact py (operate py ops chain)
unfolding operate
operate-IsIntact py [] chain h = h
operate-IsIntact py (op ∷ ops) chain h =
    operate-IsIntact py ops (apply py op chain) (apply-IsIntact py op chain h)

-- A buffer that starts empty never holds more entries than its capacity, and passes its own
-- integrity check, after any appends, refused ones included, clears and replays.
pub buffer_bounded_and_linked :
    (py : Platform) (did : String) (capacity : ℕ) (ops : List Operation)
    → (length (operate py ops (empty_buffer did capacity)).entries
        ≤ (operate py ops (empty_buffer did capacity)).capacity)
      × (verify_chain_integrity py (operate py ops (empty_buffer did capacity)) ≡ true)
unfolding integrity_from
buffer_bounded_and_linked py did capacity ops =
    let h =
      operate-IsIntact py ops (empty_buffer did capacity)
        (record { bounded = omega arith; linked = refl; kept = refl }) in
    (h.bounded, h.linked)

-- After any operations, a replay of a buffer that is not empty submits the whole buffer, in the order
-- of the appends, and empties it when and only when the batch is accepted.
pub replay_submits_all :
    (py : Platform) (did : String) (capacity : ℕ) (ops : List Operation)
    (submit : List AuditEntry → Bool) (e : AuditEntry) (es : List AuditEntry)
    → (operate py ops (empty_buffer did capacity)).entries ≡ e ∷ es
    → replay_on_reconnect py submit (operate py ops (empty_buffer did capacity)) ≡ (
        if submit (e ∷ es)
        then (true, clear (operate py ops (empty_buffer did capacity)))
        else (false, operate py ops (empty_buffer did capacity)))
unfolding replay_on_reconnect replay_batch
replay_submits_all py did capacity ops submit e es p =
    let chain = operate py ops (empty_buffer did capacity) in
    subst
      (λ batch.
        replay_batch py submit chain batch
        ≡ (if submit (e ∷ es) then (true, clear chain) else (false, chain)))
      (sym p) (rw (buffer_bounded_and_linked py did capacity ops).1 refl)
