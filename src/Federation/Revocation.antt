-- ===== src/Federation/Revocation.antt =====
-- Forwarding to a peer whose anchor has been removed.
use worker_context_protocol.Prelude.{
  String, ◌≡◌, ◌≢◌, refl, ◌∙◌, none, some, List, [], ◌∷◌, ◌++◌, All, Bool-cases, inl, inr,
}
use worker_context_protocol.Json.{Fields}
use worker_context_protocol.Platform.{Platform}
use worker_context_protocol.Federation.{Host, TrustAnchor, Local, failed, peer_revoked}
use worker_context_protocol.Federation.Anchors.{
  get_anchor, add, remove, verify_signature, is_expired,
}
use worker_context_protocol.Federation.Effects.{
  import_peer_chain-Noted, forward_task-Noted, advertise_peer_capability-Noted,
}
use worker_context_protocol.Federation.Genuine.{
  IsKeyed, find_anchor-drop_anchor, find_anchor-put_anchor, remove-store, operate-IsStore,
  empty-IsStore, drop_anchor-absent,
}
use worker_context_protocol.Federation.Operations.{
  Operation, apply, operate, forward_task, Forwarder, pick_peer,
}

-- The operation does not add an anchor for the identifier.
abbrev pub DoesNotAdd : String → Operation → Type 0
DoesNotAdd did (Operation.add_anchor a) = a.peer_coordinator_did ≢ did
DoesNotAdd did _ = Unit

add-absent :
    (py : Platform) (host : Host) (did : String) (a : TrustAnchor) (here : Local)
    → a.peer_coordinator_did ≢ did
    → get_anchor did here ≡ none
    → get_anchor did (add py host a here).1 ≡ none
unfolding add
add-absent py host did a here other h = elim (Bool-cases (verify_signature py host a)) [
  | inr v ↦ rw v h
  | inl v ↦ elim (Bool-cases (is_expired a (host.time here.readings))) [
    | inl x ↦ rw v (rw x h)
    | inr x ↦
        rw v
          (rw x (find_anchor-put_anchor did a.peer_coordinator_did a here.store.by_did other ∙ h))
  ]
]

apply-absent :
    (py : Platform) (host : Host) (did : String) (op : Operation) (here : Local)
    → DoesNotAdd did op
    → get_anchor did here ≡ none
    → get_anchor did (apply py host op here) ≡ none
unfolding apply pick_peer
apply-absent py host did (Operation.add_anchor a) here other h =
    add-absent py host did a here other h
apply-absent py host did (Operation.remove_anchor k why) here other h =
    rw (remove-store py host k why here) (drop_anchor-absent did k here.store.by_did h)
apply-absent py host did (Operation.query_class c) here other h = h
apply-absent py host did (Operation.import_chain f peer c) here other h =
    rw (import_peer_chain-Noted py host f peer c here).0 h
apply-absent py host did (Operation.choose_peer d accepted) here other h = h
apply-absent py host did (Operation.forward f peer t e i) here other h =
    rw (forward_task-Noted py f peer t e i here).0 h
apply-absent py host did (Operation.advertise peer w s) here other h =
    rw (advertise_peer_capability-Noted py host peer w s here).0 h

operate-absent :
    (py : Platform) (host : Host) (did : String) (ops : List Operation) (here : Local)
    → All (DoesNotAdd did) ops
    → get_anchor did here ≡ none
    → get_anchor did (operate py host ops here) ≡ none
unfolding operate
operate-absent py host did [] here others h = h
operate-absent py host did (op ∷ ops) here others h =
    operate-absent py host did ops (apply py host op here) others.1
      (apply-absent py host did op here others.0 h)

forward_task-absent :
    (py : Platform) (f : Forwarder) (peer : TrustAnchor) (t : Fields) (e : String) (i : Fields)
    (here : Local)
    → get_anchor peer.peer_coordinator_did here ≡ none
    → forward_task py (some f) peer t e i here ≡ (failed peer_revoked, here)
unfolding forward_task
forward_task-absent py f peer t e i here h = rw (h, forward_task) refl

removed :
    (py : Platform) (host : Host) (did why : String) (later : List Operation) (here : Local)
    → IsKeyed here.store.by_did
    → All (DoesNotAdd did) later
    → get_anchor did (operate py host (Operation.remove_anchor did why ∷ later) here) ≡ none
unfolding operate apply
removed py host did why later here keyed others =
    operate-absent py host did later (remove py host did why here).1 others
      (rw (remove-store py host did why here) (find_anchor-drop_anchor did here.store.by_did keyed))

operate-append :
    (py : Platform) (host : Host) (ops later : List Operation) (here : Local)
    → operate py host (ops ++ later) here ≡ operate py host later (operate py host ops here)
unfolding operate
operate-append py host [] later here = refl
operate-append py host (op ∷ ops) later here =
    operate-append py host ops later (apply py host op here)

-- Once an anchor has been removed from a store that was filled by any operations, and until an
-- anchor of that peer is added again, a task for the peer is refused as revoked with any forwarder:
-- no call is added to the calls made, and neither the store nor the audit chain changes.
pub revoked_refused :
    (py : Platform) (host : Host) (before : Local) (ops later : List Operation) (why : String)
    (f : Forwarder) (peer : TrustAnchor) (t : Fields) (e : String) (i : Fields)
    → before.store.by_did ≡ []
    → All (DoesNotAdd peer.peer_coordinator_did) later
    → let here =
        operate py host
          (ops ++ Operation.remove_anchor peer.peer_coordinator_did why ∷ later)
          before in
      forward_task py (some f) peer t e i here ≡ (failed peer_revoked, here)
revoked_refused py host before ops later why f peer t e i fresh others =
    forward_task-absent py f peer t e i _ (
      rw
        (operate-append py host ops (Operation.remove_anchor peer.peer_coordinator_did why ∷ later)
          before)
        (removed py host peer.peer_coordinator_did why later (operate py host ops before)
          (operate-IsStore py host ops before (empty-IsStore py host before fresh)).keyed others))
