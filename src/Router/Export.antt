-- ===== src/Router/Export.antt =====
-- `federation_audit_chain`: the rows of a claim as dicts, for a peer to verify.
use worker_context_protocol.Prelude.{String, List, map, select}
use worker_context_protocol.Json.{str, obj, Fields, end, field}
use worker_context_protocol.Models.{WcpAudit}
use worker_context_protocol.Platform.{Platform}
use worker_context_protocol.Audit.{has_claim, order_by_timestamp}
use worker_context_protocol.Tasks.Common.{optional}

abbrev pub export_entry : Platform → WcpAudit → Fields
export_entry py r = field "event_type" (str r.event_type) (
    field "actor_did" (str r.actor_did) (
      field "timestamp" (str (py.isoformat r.timestamp)) (
        field "payload_json" (obj r.payload_json) (
          field "payload_hash" (str r.payload_hash) (
            field "prev_hash" (optional r.prev_hash) (
              field "this_hash" (str r.this_hash) (
                field "claim_id" (optional r.claim_id)
                  (field "task_id" (optional r.task_id) (field "sig" (str r.sig) end)))))))))

unfoldable pub federation_audit_chain : Platform → String → List WcpAudit → List Fields
federation_audit_chain py claim_id rows =
    map (export_entry py) (order_by_timestamp (select (has_claim claim_id) rows))
