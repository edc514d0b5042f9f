-- ===== src/Federation/Operations.antt =====
-- wcp_coordinator/federation: audit_export.py, router.py and capability_sync.py on the local state.
use worker_context_protocol.Prelude.{
  String, Bool, true, false, not, ◌&&◌, Option, none, some, List, [], ◌∷◌, ◌==◌, length, contains,
  if◌then◌else◌,
}
use worker_context_protocol.Prelude.Int.{pos}
use worker_context_protocol.Json.{
  Value, null, str, int, bool, obj, Fields, end, field, get, has, put,
}
use worker_context_protocol.Platform.{Platform}
use worker_context_protocol.Audit.{append}
use worker_context_protocol.Federation.{
  Host, TrustAnchor, PeerCall, Local, no_forwarder, peer_revoked, no_fetcher, fetch_failed,
  missing_key, off_type, Outcome, failed, done,
}
use worker_context_protocol.Federation.Anchors.{allows, anchors_for_class, get_anchor, add, remove}
use worker_context_protocol.Federation.Segment.{verify_chain_segment, completion_event, last_entry}

-- An entry on the local audit chain.
abbrev pub note :
    Platform → String → String → Fields → Option String → Option String → Local → Local
note py event actor payload claim task here = record here {
  db = (append py event actor payload claim task here.db).1;
}

-- what the fetcher of a peer's chain returns, none for what it raises
abbrev pub Fetcher : Type 0
Fetcher = String → String → Option (List Fields)

-- what a forwarder returns, or the text of what it raises
pub data Forwarded : Type 0 where
  result : Fields → Forwarded
  refused : String → Forwarded

abbrev pub Forwarder : Type 0
Forwarder = String → String → Fields → Forwarded

-- `entries[-1]["this_hash"] if entries else None`
abbrev pub terminal_hash : Option Fields → Outcome Value
terminal_hash none = done null
terminal_hash (some e) = if has "this_hash" e then done (get "this_hash" e) else failed missing_key

abbrev import_report : Bool → List Fields → Value → Fields
import_report ok entries terminal = field "ok" (bool ok) (
    field "entries" (int (pos (length entries)))
      (field "terminal_hash" terminal (field "completion_event" (completion_event entries) end)))

abbrev import_entry : TrustAnchor → String → Bool → List Fields → Value → Fields
import_entry peer claim_id ok entries terminal =
    field "peer_coordinator_did" (str peer.peer_coordinator_did) (
      field "claim_id" (str claim_id) (
        field "entries" (int (pos (length entries))) (
          field "terminal_hash" terminal
            (field "completion_event" (completion_event entries) (field "ok" (bool ok) end)))))

abbrev not_allowed : Fields
not_allowed = field "ok" (bool false) (
    field "reason" (str "peer trust anchor does not allow audit_chain_export") (
      field "entries" (int (pos 0))
        (field "terminal_hash" null (field "completion_event" null end))))

-- the fetched segment is checked and noted
unfoldable pub import_segment :
    Platform → TrustAnchor → String → List Fields → Local → Outcome Fields × Local
import_segment py peer claim_id entries here =
    let ok = verify_chain_segment py entries in
    elim (terminal_hash (last_entry entries)) [
      | failed e ↦ (failed e, here)
      | done terminal ↦ (
        done (import_report ok entries terminal),
        note py "federation_audit_chain_imported" peer.peer_coordinator_did
            (import_entry peer claim_id ok entries terminal) (some claim_id) none here,
      )
    ]

unfoldable pub fetch_segment :
    Platform → Option Fetcher → TrustAnchor → String → Local → Outcome Fields × Local
fetch_segment py none peer claim_id here = (failed no_fetcher, here)
fetch_segment py (some fetch) peer claim_id here = elim (fetch peer.peer_endpoint_url claim_id) [
  | none ↦ (failed fetch_failed, here)
  | some entries ↦ import_segment py peer claim_id entries here
]

-- `AuditExport.import_peer_chain`
unfoldable pub import_peer_chain :
    Platform → Host → Option Fetcher → TrustAnchor → String → Local → Outcome Fields × Local
import_peer_chain py host fetcher peer claim_id here =
    let (allowed, n) = allows host peer "audit_chain_export" here.readings in
    let here' : Local = record here { readings = n } in
    if not allowed then (done not_allowed, here') else fetch_segment py fetcher peer claim_id here'

-- `allowed.get(did, set())`
abbrev accepted_types : String → List (String × List String) → List String
accepted_types did [] = []
accepted_types did ((k, types) ∷ rest) =
    let later = accepted_types did rest in if k == did then types else later

-- the test of a peer in `pick_peer`
unfoldable pub admits : String → Option (List (String × List String)) → TrustAnchor → Bool
admits descriptor_type none anchor = true
admits descriptor_type (some accepted) anchor = not (
    not (descriptor_type == "")
    && not (contains (accepted_types anchor.peer_coordinator_did accepted) descriptor_type))

unfoldable pub first_admitting :
    String → Option (List (String × List String)) → List TrustAnchor → Option TrustAnchor
first_admitting descriptor_type accepted [] = none
first_admitting descriptor_type accepted (a ∷ rest) =
    let later = first_admitting descriptor_type accepted rest in
    if admits descriptor_type accepted a then some a else later

-- `FederationRouter.pick_peer`; `worker_class_filter` is never read
unfoldable pub pick_peer :
    Host → String → Option (List (String × List String)) → Local → Option TrustAnchor × Local
pick_peer host descriptor_type accepted here =
    let (anchors, n) =
      anchors_for_class host "capability_discovery" here.store.by_did here.readings in
    (first_admitting descriptor_type accepted anchors, record here { readings = n })

-- `params.update(informational)`
abbrev pub update : Fields → Fields → Fields
update f end = f
update f (field k v g) = update (put k v f) g

abbrev forward_params : Fields → String → Fields → Fields
forward_params task expiry informational =
    update (field "task" (obj task) (field "expiry" (str expiry) end)) informational

abbrev status_of : Forwarded → String
status_of (result d) = "accepted"
status_of (refused text) = "rejected"

abbrev response_of : Forwarded → Fields
response_of (result d) = d
response_of (refused text) = field "error" (str text) end

-- what fits the text column of an identifier
abbrev pub column_text : Value → Option (Option String)
column_text null = some none
column_text (str s) = some (some s)
column_text _ = none

abbrev forward_entry : TrustAnchor → Fields → Forwarded → Fields
forward_entry peer task forwarded = field "peer_coordinator_did" (str peer.peer_coordinator_did) (
    field "peer_endpoint_url" (str peer.peer_endpoint_url) (
      field "task_id" (get "task_id" task) (
        field "status" (str (status_of forwarded))
          (field "peer_response" (obj (response_of forwarded)) end))))

-- the parameters that the forwarder is called with
abbrev call_of : TrustAnchor → Fields → String → Fields → PeerCall
call_of peer task expiry informational = record {
  endpoint = peer.peer_endpoint_url;
  method = "tasks/post";
  params = forward_params task expiry informational;
}

-- the call of the peer and its entry; a forwarder answers once it is called
unfoldable pub forward_to :
    Platform → Forwarder → TrustAnchor → Fields → String → Fields → Local → Outcome Fields × Local
forward_to py forward peer task expiry informational here =
    let call = call_of peer task expiry informational in
    let forwarded = forward call.endpoint call.method call.params in
    let here' : Local = record here { sent = call ∷ here.sent } in
    elim (column_text (get "task_id" task)) [
      | none ↦ (failed off_type, here')
      | some id ↦ (
        done (response_of forwarded),
        note py "federation_task_forwarded" peer.peer_coordinator_did
            (forward_entry peer task forwarded) none id here',
      )
    ]

-- `FederationRouter.forward_task`
unfoldable pub forward_task :
    Platform
    → Option Forwarder
    → TrustAnchor
    → Fields
    → String
    → Fields
    → Local
    → Outcome Fields × Local
forward_task py none peer task expiry informational here = (failed no_forwarder, here)
forward_task py (some forward) peer task expiry informational here =
    elim (get_anchor peer.peer_coordinator_did here) [
      | none ↦ (failed peer_revoked, here)
      | some anchor ↦ forward_to py forward peer task expiry informational here
    ]

-- `CapabilitySync.advertise_peer_capability`
unfoldable pub advertise_peer_capability :
    Platform → Host → TrustAnchor → String → Fields → Local → Local
advertise_peer_capability py host peer worker_id summary here =
    let (allowed, n) = allows host peer "capability_discovery" here.readings in
    let here' : Local = record here { readings = n } in
    if not allowed
    then here'
    else note py "federation_capability_advertised" peer.peer_coordinator_did
        (field "peer_coordinator_did" (str peer.peer_coordinator_did)
          (field "peer_worker_id" (str worker_id) (field "capability_summary" (obj summary) end)))
        none none here'

-- A call of one of the objects that share the store and the local audit chain.
pub data Operation : Type 0 where
  add_anchor : TrustAnchor → Operation
  remove_anchor : String → String → Operation
  query_class : String → Operation
  import_chain : Option Fetcher → TrustAnchor → String → Operation
  choose_peer : String → Option (List (String × List String)) → Operation
  forward : Option Forwarder → TrustAnchor → Fields → String → Fields → Operation
  advertise : TrustAnchor → String → Fields → Operation

unfoldable pub apply : Platform → Host → Operation → Local → Local
apply py host (add_anchor a) here = (add py host a here).1
apply py host (remove_anchor did why) here = (remove py host did why here).1
apply py host (query_class c) here = record here {
  readings = (anchors_for_class host c here.store.by_did here.readings).1;
}
apply py host (import_chain f peer c) here = (import_peer_chain py host f peer c here).1
apply py host (choose_peer d accepted) here = (pick_peer host d accepted here).1
apply py host (forward f peer t e i) here = (forward_task py f peer t e i here).1
apply py host (advertise peer w s) here = advertise_peer_capability py host peer w s here

unfoldable pub operate : Platform → Host → List Operation → Local → Local
operate py host [] here = here
operate py host (op ∷ ops) here = operate py host ops (apply py host op here)
