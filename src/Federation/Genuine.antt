-- ===== src/Federation/Genuine.antt =====
-- What the store of trust anchors holds, over every operation that can reach it.
use worker_context_protocol.Prelude.{
  String, ◌≡◌, ◌≢◌, refl, sym, ap, ◌∙◌, inl, inr, true, false, Option, none, some, List, [], ◌∷◌,
  ◌==◌, eq_iff, All, Bool-cases, Option-cases,
}
use worker_context_protocol.Platform.{Platform}
use worker_context_protocol.Federation.{Host, TrustAnchor, Local}
use worker_context_protocol.Federation.Anchors.{
  put_anchor, find_anchor, drop_anchor, get_anchor, add, remove, verify_signature, is_expired,
}
use worker_context_protocol.Federation.Effects.{
  record_revocation-Noted, import_peer_chain-Noted, forward_task-Noted,
  advertise_peer_capability-Noted,
}
use worker_context_protocol.Federation.Operations.{Operation, apply, operate, pick_peer}

abbrev Pairs : Type 0
Pairs = List (String × TrustAnchor)

-- under its own identifier, with a signature that verifies
abbrev pub IsGenuine : Platform → Host → String × TrustAnchor → Type 0
IsGenuine py host pair =
    (pair.0 ≡ pair.1.peer_coordinator_did) × (verify_signature py host pair.1 ≡ true)

-- each key once
abbrev pub IsKeyed : List (String × TrustAnchor) → Type 0
IsKeyed [] = Unit
IsKeyed ((k, a) ∷ rest) = (find_anchor k rest ≡ none) × IsKeyed rest

pub record IsStore (py : Platform) (host : Host) (pairs : List (String × TrustAnchor))
    : Type 0 where
  pub genuine : All (IsGenuine py host) pairs
  pub keyed : IsKeyed pairs

pub ==-false : {s t : String} → (s == t) ≡ false → s ≢ t
==-false h p = absurd (cc (h, (eq_iff _ _).1 p))

pub find_anchor-put_anchor :
    (k did : String) (a : TrustAnchor) (pairs : List (String × TrustAnchor))
    → did ≢ k
    → find_anchor k (put_anchor did a pairs) ≡ find_anchor k pairs
unfolding find_anchor put_anchor
find_anchor-put_anchor k did a [] ne = elim (Bool-cases (did == k)) [
  | inl b ↦ absurd (ne ((eq_iff did k).0 b))
  | inr b ↦ rw b refl
]
find_anchor-put_anchor k did a ((j, x) ∷ rest) ne = elim (Bool-cases (j == did)) [
  | inl b ↦ elim (Bool-cases (j == k)) [
    | inl c ↦ absurd (ne (sym ((eq_iff j did).0 b) ∙ (eq_iff j k).0 c))
    | inr c ↦ rw b (rw c refl)
  ]
  | inr b ↦ elim (Bool-cases (j == k)) [
    | inl c ↦ rw b (rw c refl)
    | inr c ↦ rw b (rw c (find_anchor-put_anchor k did a rest ne))
  ]
]

put_anchor-IsKeyed :
    (did : String) (a : TrustAnchor) (pairs : Pairs)
    → IsKeyed pairs
    → IsKeyed (put_anchor did a pairs)
unfolding put_anchor find_anchor
put_anchor-IsKeyed did a [] h = (refl, tt)
put_anchor-IsKeyed did a ((k, x) ∷ rest) h = elim (Bool-cases (k == did)) [
  | inl b ↦ rw b h
  | inr b ↦ rw b (
    find_anchor-put_anchor k did a rest (λ p. ==-false b (sym p)) ∙ h.0,
    put_anchor-IsKeyed did a rest h.1,
  )
]

put_anchor-IsGenuine :
    (py : Platform) (host : Host) (a : TrustAnchor) (pairs : Pairs)
    → verify_signature py host a ≡ true
    → All (IsGenuine py host) pairs
    → All (IsGenuine py host) (put_anchor a.peer_coordinator_did a pairs)
unfolding put_anchor
put_anchor-IsGenuine py host a [] v h = ((refl, v), tt)
put_anchor-IsGenuine py host a ((k, x) ∷ rest) v h =
    elim (Bool-cases (k == a.peer_coordinator_did)) [
      | inl b ↦ rw b (((eq_iff k a.peer_coordinator_did).0 b, v), h.1)
      | inr b ↦ rw b (h.0, put_anchor-IsGenuine py host a rest v h.1)
    ]

pub drop_anchor-absent :
    (k did : String) (pairs : Pairs)
    → find_anchor k pairs ≡ none
    → find_anchor k (drop_anchor did pairs) ≡ none
unfolding find_anchor drop_anchor
drop_anchor-absent k did [] h = refl
drop_anchor-absent k did ((j, x) ∷ rest) h = elim (Bool-cases (j == k)) [
  | inl c ↦ absurd (cc (rw c at h))
  | inr c ↦
      let h' = rw c at h in
      elim (Bool-cases (j == did)) [
        | inl b ↦ rw b h'
        | inr b ↦ rw b (rw c (drop_anchor-absent k did rest h'))
      ]
]

drop_anchor-IsStore :
    (py : Platform) (host : Host) (did : String) (pairs : Pairs)
    → IsStore py host pairs
    → IsStore py host (drop_anchor did pairs)
unfolding drop_anchor
drop_anchor-IsStore py host did [] h = h
drop_anchor-IsStore py host did ((k, x) ∷ rest) h =
    let tail : IsStore py host rest = record { genuine = h.genuine.1; keyed = h.keyed.1 } in
    elim (Bool-cases (k == did)) [
      | inl b ↦ rw b tail
      | inr b ↦
          let later = drop_anchor-IsStore py host did rest tail in
          rw b (record {
            genuine = (h.genuine.0, later.genuine);
            keyed = (drop_anchor-absent k did rest h.keyed.0, later.keyed);
          })
    ]

-- `pop` leaves nothing under the key.
pub find_anchor-drop_anchor :
    (did : String) (pairs : List (String × TrustAnchor))
    → IsKeyed pairs
    → find_anchor did (drop_anchor did pairs) ≡ none
unfolding find_anchor drop_anchor
find_anchor-drop_anchor did [] h = refl
find_anchor-drop_anchor did ((k, x) ∷ rest) h = elim (Bool-cases (k == did)) [
  | inl b ↦ rw b (ap (λ j. find_anchor j rest) (sym ((eq_iff k did).0 b)) ∙ h.0)
  | inr b ↦ rw b (rw b (find_anchor-drop_anchor did rest h.1))
]

drop_anchor-none :
    (did : String) (pairs : Pairs) → find_anchor did pairs ≡ none → drop_anchor did pairs ≡ pairs
unfolding find_anchor drop_anchor
drop_anchor-none did [] h = refl
drop_anchor-none did ((k, x) ∷ rest) h = elim (Bool-cases (k == did)) [
  | inl b ↦ absurd (cc (rw b at h))
  | inr b ↦ let h' = rw b at h in rw b (ap (λ ps. (k, x) ∷ ps) (drop_anchor-none did rest h'))
]

find_anchor-genuine :
    (py : Platform) (host : Host) (did : String) (a : TrustAnchor) (pairs : Pairs)
    → All (IsGenuine py host) pairs
    → find_anchor did pairs ≡ some a
    → (a.peer_coordinator_did ≡ did) × (verify_signature py host a ≡ true)
unfolding find_anchor
find_anchor-genuine py host did a [] h f = absurd (cc f)
find_anchor-genuine py host did a ((k, x) ∷ rest) h f = elim (Bool-cases (k == did)) [
  | inl b ↦
      let f' = rw b at f in
      (
        ap
              (λ (o : Option TrustAnchor). elim o [
                | none ↦ x.peer_coordinator_did
                | some y ↦ y.peer_coordinator_did
              ])
              (sym f')
            ∙ sym h.0.0
            ∙ (eq_iff k did).0 b,
        ap
              (λ (o : Option TrustAnchor). elim o [
                | none ↦ verify_signature py host x
                | some y ↦ verify_signature py host y
              ])
              (sym f')
            ∙ h.0.1,
      )
  | inr b ↦ let f' = rw b at f in find_anchor-genuine py host did a rest h.1 f'
]

pub remove-store :
    (py : Platform) (host : Host) (did why : String) (here : Local)
    → (remove py host did why here).1.store.by_did ≡ drop_anchor did here.store.by_did
unfolding remove
remove-store py host did why here = elim (Option-cases (get_anchor did here)) [
  | inl p ↦ rw (p, remove) (sym (drop_anchor-none did here.store.by_did p))
  | inr (a, p) ↦ rw (p, remove) (ap (λ s. s.by_did) (record_revocation-Noted py host did why _).0)
]

add-IsStore :
    (py : Platform) (host : Host) (a : TrustAnchor) (here : Local)
    → IsStore py host here.store.by_did
    → IsStore py host (add py host a here).1.store.by_did
unfolding add
add-IsStore py host a here h = elim (Bool-cases (verify_signature py host a)) [
  | inr v ↦ rw v h
  | inl v ↦ elim (Bool-cases (is_expired a (host.time here.readings))) [
    | inl x ↦ rw v (rw x h)
    | inr x ↦ rw v (
        rw x (record {
          genuine = put_anchor-IsGenuine py host a here.store.by_did v h.genuine;
          keyed = put_anchor-IsKeyed a.peer_coordinator_did a here.store.by_did h.keyed;
        }))
  ]
]

apply-IsStore :
    (py : Platform) (host : Host) (op : Operation) (here : Local)
    → IsStore py host here.store.by_did
    → IsStore py host (apply py host op here).store.by_did
unfolding apply pick_peer
apply-IsStore py host (Operation.add_anchor a) here h = add-IsStore py host a here h
apply-IsStore py host (Operation.remove_anchor did why) here h =
    rw (remove-store py host did why here) (drop_anchor-IsStore py host did here.store.by_did h)
apply-IsStore py host (Operation.query_class c) here h = h
apply-IsStore py host (Operation.import_chain f peer c) here h =
    rw (import_peer_chain-Noted py host f peer c here).0 h
apply-IsStore py host (Operation.choose_peer d accepted) here h = h
apply-IsStore py host (Operation.forward f peer t e i) here h =
    rw (forward_task-Noted py f peer t e i here).0 h
apply-IsStore py host (Operation.advertise peer w s) here h =
    rw (advertise_peer_capability-Noted py host peer w s here).0 h

pub operate-IsStore :
    (py : Platform) (host : Host) (ops : List Operation) (here : Local)
    → IsStore py host here.store.by_did
    → IsStore py host (operate py host ops here).store.by_did
unfolding operate
operate-IsStore py host [] here h = h
operate-IsStore py host (op ∷ ops) here h =
    operate-IsStore py host ops (apply py host op here) (apply-IsStore py host op here h)

pub empty-IsStore :
    (py : Platform) (host : Host) (here : Local)
    → here.store.by_did ≡ []
    → IsStore py host here.store.by_did
empty-IsStore py host here none_yet = rw none_yet (record { genuine = tt; keyed = tt })

-- After any operations on a store that was empty, the anchor that `get` returns for an identifier is
-- that peer's own, and its signature verifies under the public key that it carries.
pub stored_anchors_genuine :
    (py : Platform) (host : Host) (here : Local) (ops : List Operation) (did : String)
    (a : TrustAnchor)
    → here.store.by_did ≡ []
    → get_anchor did (operate py host ops here) ≡ some a
    → (a.peer_coordinator_did ≡ did) × (verify_signature py host a ≡ true)
stored_anchors_genuine py host here ops did a none_yet found =
    find_anchor-genuine py host did a (operate py host ops here).store.by_did
      (operate-IsStore py host ops here (empty-IsStore py host here none_yet)).genuine found
