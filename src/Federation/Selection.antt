-- ===== src/Federation/Selection.antt =====
-- The peer that `pick_peer` chooses.
use worker_context_protocol.Prelude.{
  ℕ, ◌≤◌, ◌<◌, arith, String, ◌≡◌, refl, sym, ap, inl, inr, true, false, Option, none, some, List,
  [], ◌∷◌, ◌==◌, eq_iff, contains, All, All-map, Bool-cases,
}
use worker_context_protocol.Platform.{Platform}
use worker_context_protocol.Federation.{Host, TrustAnchor, Local}
use worker_context_protocol.Federation.Anchors.{
  find_anchor, get_anchor, allows, is_expired, anchors_for_class,
}
use worker_context_protocol.Federation.Genuine.{IsStore, operate-IsStore, empty-IsStore}
use worker_context_protocol.Federation.Operations.{
  Operation, operate, pick_peer, first_admitting, admits,
}

-- In scope, and not expired at one of the readings of the clock from the first to before the last.
pub record IsOffered (host : Host) (trust_class : String) (first last : ℕ) (a : TrustAnchor)
    : Type 0 where
  pub in_scope : contains a.scope trust_class ≡ true
  pub reading : ℕ
  pub since : first ≤ reading
  pub until : reading < last
  pub in_time : is_expired a (host.time reading) ≡ false

widen :
    {host : Host} {c : String} {a : TrustAnchor} (first last first' last' : ℕ)
    → first' ≤ first
    → last ≤ last'
    → IsOffered host c first last a
    → IsOffered host c first' last' a
widen first last first' last' lo hi o = record {
  in_scope = o.in_scope;
  reading = o.reading;
  since = omega (arith, lo, o.since);
  until = omega (arith, hi, o.until);
  in_time = o.in_time;
}

allows-IsOffered :
    (host : Host) (a : TrustAnchor) (c : String) (n : ℕ)
    → (allows host a c n).0 ≡ true
    → IsOffered host c n (allows host a c n).1 a
unfolding allows
allows-IsOffered host a c n h = elim (Bool-cases (contains a.scope c)) [
  | inr s ↦ absurd (cc (rw s at h))
  | inl s ↦
      let h' = rw s at h in
      elim (Bool-cases (is_expired a (host.time n))) [
        | inl x ↦ absurd (cc (rw x at h'))
        | inr x ↦ rw s (record {
          in_scope = s;
          reading = n;
          since = omega arith;
          until = omega arith;
          in_time = x;
        })
      ]
]

allows-later : (host : Host) (a : TrustAnchor) (c : String) (n : ℕ) → n ≤ (allows host a c n).1
unfolding allows
allows-later host a c n = elim (Bool-cases (contains a.scope c)) [
  | inr s ↦ rw s (omega arith)
  | inl s ↦ rw s (omega arith)
]

anchors_for_class-later :
    (host : Host) (c : String) (pairs : List (String × TrustAnchor)) (n : ℕ)
    → n ≤ (anchors_for_class host c pairs n).1
unfolding anchors_for_class
anchors_for_class-later host c [] n = omega arith
anchors_for_class-later host c ((k, a) ∷ rest) n =
    let one = allows-later host a c n in
    let more = anchors_for_class-later host c rest (allows host a c n).1 in omega (arith, one, more)

anchors_for_class-IsOffered :
    (Q : TrustAnchor → Type 0) (host : Host) (c : String) (pairs : List (String × TrustAnchor))
    (n : ℕ)
    → All (λ p. Q p.1) pairs
    → All
        (λ a. Q a × IsOffered host c n (anchors_for_class host c pairs n).1 a)
        (anchors_for_class host c pairs n).0
unfolding anchors_for_class
anchors_for_class-IsOffered Q host c [] n h = tt
anchors_for_class-IsOffered Q host c ((k, a) ∷ rest) n h =
    let n' = (allows host a c n).1 in
    let last = (anchors_for_class host c rest n').1 in
    let more = anchors_for_class-later host c rest n' in
    let later =
      All-map (λ x o. (o.0, widen n' last n last (allows-later host a c n) (omega arith) o.1)) _
        (anchors_for_class-IsOffered Q host c rest n' h.1) in
    elim (Bool-cases (allows host a c n).0) [
      | inl b ↦
          rw b ((h.0, widen n n' n last (omega arith) more (allows-IsOffered host a c n b)), later)
      | inr b ↦ rw b later
    ]

first_admitting-admits :
    (P : TrustAnchor → Type 0) (d : String) (accepted : Option (List (String × List String)))
    (anchors : List TrustAnchor) (a : TrustAnchor)
    → All P anchors
    → first_admitting d accepted anchors ≡ some a
    → P a × (admits d accepted a ≡ true)
unfolding first_admitting
first_admitting-admits P d accepted [] a h f = absurd (cc f)
first_admitting-admits P d accepted (x ∷ rest) a h f = elim (Bool-cases (admits d accepted x)) [
  | inl b ↦
      let f' = rw b at f in
      let same : x ≡ a = ap (λ (o : Option TrustAnchor). elim o [ none ↦ x | some y ↦ y ]) f' in
      rw (sym same) (h.0, b)
  | inr b ↦ let f' = rw b at f in first_admitting-admits P d accepted rest a h.1 f'
]

-- Each pair of a store is what `get` returns under its anchor's identifier.
pairs-found :
    (py : Platform) (host : Host) (pairs : List (String × TrustAnchor))
    → IsStore py host pairs
    → All (λ p. find_anchor p.1.peer_coordinator_did pairs ≡ some p.1) pairs
unfolding find_anchor
pairs-found py host [] h = tt
pairs-found py host ((k, a) ∷ rest) h = (
  rw ((eq_iff k a.peer_coordinator_did).1 h.genuine.0.0) refl,
  All-map
      (λ p found. elim (Bool-cases (k == p.1.peer_coordinator_did)) [
        | inl b ↦ absurd (cc (found, h.keyed.0, (eq_iff k p.1.peer_coordinator_did).0 b))
        | inr b ↦ rw b found
      ])
      rest (pairs-found py host rest (record { genuine = h.genuine.1; keyed = h.keyed.1 })),
)

-- In a store filled by any operations, the peer that `pick_peer` chooses is one whose anchor `get`
-- returns, with capability_discovery in its scope, not expired at a reading of the clock that
-- `pick_peer` itself takes, and with the task's descriptor type among the accepted ones where a table of these is given.
pub picked_peer_allowed :
    (py : Platform) (host : Host) (before : Local) (ops : List Operation) (d : String)
    (accepted : Option (List (String × List String))) (a : TrustAnchor)
    → before.store.by_did ≡ []
    → (pick_peer host d accepted (operate py host ops before)).0 ≡ some a
    → (get_anchor a.peer_coordinator_did (operate py host ops before) ≡ some a)
      × IsOffered host "capability_discovery"
          (operate py host ops before).readings
          (pick_peer host d accepted (operate py host ops before)).1.readings
          a
      × (admits d accepted a ≡ true)
unfolding pick_peer
picked_peer_allowed py host before ops d accepted a fresh picked =
    let here = operate py host ops before in
    let store = operate-IsStore py host ops before (empty-IsStore py host before fresh) in
    let (p, q) =
      first_admitting-admits
        (λ x.
          (get_anchor x.peer_coordinator_did here ≡ some x)
          × IsOffered host "capability_discovery" here.readings
              (anchors_for_class host "capability_discovery" here.store.by_did here.readings).1 x)
        d accepted _ a
        (anchors_for_class-IsOffered (λ x. get_anchor x.peer_coordinator_did here ≡ some x) host
          "capability_discovery" here.store.by_did here.readings
          (pairs-found py host here.store.by_did store))
        picked in
    (p.0, p.1, q)
