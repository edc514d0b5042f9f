-- ===== src/Federation/Effects.antt =====
-- What the operations under a trust anchor change: the audit chain by entries, and not the store.
use worker_context_protocol.Prelude.{
  String, ◌≡◌, refl, inl, inr, Option, none, some, List, Bool-cases, Option-cases,
}
use worker_context_protocol.Json.{Fields, get}
use worker_context_protocol.Models.{Db}
use worker_context_protocol.Platform.{Platform}
use worker_context_protocol.Audit.{append}
use worker_context_protocol.Federation.{Host, TrustAnchor, Local, Outcome-cases}
use worker_context_protocol.Federation.Anchors.{
  get_anchor, remove, record_revocation, allows, add, is_expired, verify_signature,
}
use worker_context_protocol.Federation.Operations.{
  import_peer_chain, fetch_segment, import_segment, forward_task, forward_to,
  advertise_peer_capability, Fetcher, Forwarder, terminal_hash, column_text,
}
use worker_context_protocol.Federation.Segment.{last_entry}

-- At most one entry is added to the local chain.
pub data Noted (py : Platform) (db : Db) : Db → Type 0 where
  silent : Noted py db db
  entry :
      (event actor : String) (payload : Fields) (c t : Option String)
      → Noted py db (append py event actor payload c t db).1

-- The store is as it was, and at most one entry is added.
abbrev pub Effect : Platform → Local → Local → Type 0
Effect py before after = (after.store ≡ before.store) × Noted py before.db after.db

pub record_revocation-Noted :
    (py : Platform) (host : Host) (did why : String) (here : Local)
    → Effect py here (record_revocation py host did why here)
unfolding record_revocation
record_revocation-Noted py host did why here = elim (Bool-cases here.store.audited) [
  | inl b ↦ rw b (refl, Noted.entry _ _ _ _ _)
  | inr b ↦ rw b (refl, Noted.silent)
]

pub remove-Noted :
    (py : Platform) (host : Host) (did why : String) (here : Local)
    → Noted py here.db (remove py host did why here).1.db
unfolding remove
remove-Noted py host did why here = elim (Option-cases (get_anchor did here)) [
  | inl p ↦ rw (p, remove) Noted.silent
  | inr (a, p) ↦ rw (p, remove) (record_revocation-Noted py host did why _).1
]

pub add-Noted :
    (py : Platform) (host : Host) (a : TrustAnchor) (here : Local)
    → Noted py here.db (add py host a here).1.db
unfolding add
add-Noted py host a here = elim (Bool-cases (verify_signature py host a)) [
  | inr v ↦ rw v Noted.silent
  | inl v ↦ elim (Bool-cases (is_expired a (host.time here.readings))) [
    | inl x ↦ rw v (rw x Noted.silent)
    | inr x ↦ rw v (rw x Noted.silent)
  ]
]

import_segment-Noted :
    (py : Platform) (peer : TrustAnchor) (c : String) (entries : List Fields) (here : Local)
    → Effect py here (import_segment py peer c entries here).1
unfolding import_segment
import_segment-Noted py peer c entries here =
    elim (Outcome-cases (terminal_hash (last_entry entries))) [
      | inl (e, p) ↦ rw (p, import_segment) (refl, Noted.silent)
      | inr (v, p) ↦ rw (p, import_segment) (refl, Noted.entry _ _ _ _ _)
    ]

fetch_segment-Noted :
    (py : Platform) (f : Option Fetcher) (peer : TrustAnchor) (c : String) (here : Local)
    → Effect py here (fetch_segment py f peer c here).1
unfolding fetch_segment
fetch_segment-Noted py none peer c here = (refl, Noted.silent)
fetch_segment-Noted py (some fetch) peer c here =
    elim (Option-cases (fetch peer.peer_endpoint_url c)) [
      | inl p ↦ rw (p, fetch_segment) (refl, Noted.silent)
      | inr (entries, p) ↦ rw (p, fetch_segment) (import_segment-Noted py peer c entries here)
    ]

pub import_peer_chain-Noted :
    (py : Platform) (host : Host) (f : Option Fetcher) (peer : TrustAnchor) (c : String)
    (here : Local)
    → Effect py here (import_peer_chain py host f peer c here).1
unfolding import_peer_chain
import_peer_chain-Noted py host f peer c here =
    elim (Bool-cases (allows host peer "audit_chain_export" here.readings).0) [
      | inl b ↦ rw b (fetch_segment-Noted py f peer c _)
      | inr b ↦ rw b (refl, Noted.silent)
    ]

forward_to-Noted :
    (py : Platform) (f : Forwarder) (peer : TrustAnchor) (t : Fields) (e : String) (i : Fields)
    (here : Local)
    → Effect py here (forward_to py f peer t e i here).1
unfolding forward_to
forward_to-Noted py f peer t e i here = elim (Option-cases (column_text (get "task_id" t))) [
  | inl p ↦ rw (p, forward_to) (refl, Noted.silent)
  | inr (id, p) ↦ rw (p, forward_to) (refl, Noted.entry _ _ _ _ _)
]

pub forward_task-Noted :
    (py : Platform) (f : Option Forwarder) (peer : TrustAnchor) (t : Fields) (e : String)
    (i : Fields) (here : Local)
    → Effect py here (forward_task py f peer t e i here).1
unfolding forward_task
forward_task-Noted py none peer t e i here = (refl, Noted.silent)
forward_task-Noted py (some f) peer t e i here =
    elim (Option-cases (get_anchor peer.peer_coordinator_did here)) [
      | inl p ↦ rw (p, forward_task) (refl, Noted.silent)
      | inr (a, p) ↦ rw (p, forward_task) (forward_to-Noted py f peer t e i here)
    ]

pub advertise_peer_capability-Noted :
    (py : Platform) (host : Host) (peer : TrustAnchor) (w : String) (s : Fields) (here : Local)
    → Effect py here (advertise_peer_capability py host peer w s here)
unfolding advertise_peer_capability
advertise_peer_capability-Noted py host peer w s here =
    elim (Bool-cases (allows host peer "capability_discovery" here.readings).0) [
      | inl b ↦ rw b (refl, Noted.entry _ _ _ _ _)
      | inr b ↦ rw b (refl, Noted.silent)
    ]
