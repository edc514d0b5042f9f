-- ===== src/Rpc/Serve.antt =====
-- The call of a service and the dict that it returns.
use worker_context_protocol.Prelude.{ℕ, Bool, true, Option, none, some, map}
use worker_context_protocol.Prelude.Int.{pos}
use worker_context_protocol.Json.{
  Value, null, bool, int, str, obj, arr, Fields, end, field, of_list,
}
use worker_context_protocol.Models.{WcpAudit, state_value}
use worker_context_protocol.Platform.{Platform}
use worker_context_protocol.Resolver.{Resolver}
use worker_context_protocol.Exec.{Exec, pure, ◌>>=◌}
use worker_context_protocol.Capabilities.{
  upsert_capabilities, list_capabilities, create_subscription, CapabilityReply, SubscriptionReply,
}
use worker_context_protocol.Requests.{Request}
use worker_context_protocol.Tasks.Attest.{attest, AttestReply}
use worker_context_protocol.Tasks.Claim.{claim, ClaimReply}
use worker_context_protocol.Tasks.Common.{decision_value, reason_items, optional}
use worker_context_protocol.Tasks.Execute.{execute_open, execute_event, check_heartbeats, OpenReply}
use worker_context_protocol.Tasks.Observe.{observe_audit, Observation}
use worker_context_protocol.Tasks.Post.{post, PostReply}
use worker_context_protocol.Tasks.Supervise.{supervise, abort, SuperviseReply}
use worker_context_protocol.Verifier.Registry.{Registry}

abbrev natural : ℕ → Value
natural n = int (pos n)

abbrev capability_dict : CapabilityReply → Value
capability_dict r = obj (
    field "worker_id" (str r.worker_id) (
      field "capabilities" (obj r.capabilities)
        (field "ttl_seconds" (int r.ttl_seconds) (field "revision" (natural r.revision) end))))

abbrev subscription_dict : SubscriptionReply → Value
subscription_dict r = obj (
    field "subscription_id" (str r.subscription_id) (
      field "stream_endpoint" (str r.stream_endpoint)
        (field "ttl_seconds" (int r.ttl_seconds) end)))

abbrev post_dict : PostReply → Value
post_dict r = obj (
    field "task_id" (str r.task_id) (
      field "eligible_workers_count" (natural r.eligible_workers_count)
        (field "posted_at" (str r.posted_at) end)))

abbrev pub claim_dict : ClaimReply → Value
claim_dict r = obj (
    field "claim_id" (str r.claim_id)
      (field "accepted" (bool r.accepted) (field "counter" null (field "reason" null end))))

abbrev open_dict : OpenReply → Value
open_dict r =
    obj (field "session_id" (str r.session_id) (field "state" (str (state_value r.state)) end))

abbrev attest_dict : Platform → AttestReply → Value
attest_dict py r = obj (
    field "verifier_decision" (str (decision_value r.verifier_decision)) (
      field "residual" (obj end) (
        field "reasons" (arr (reason_items py r.reasons)) (
          field "attempt_number" (natural r.attempt_number)
            (field "attempts_remaining" (natural r.attempts_remaining) end)))))

abbrev supervise_dict : SuperviseReply → Value
supervise_dict r = obj (
    field "supervisor_id" (str r.supervisor_id) (
      field "session_url" (str r.session_url)
        (field "takeover_authority" (str r.takeover_authority) end)))

-- one entry of audit/observe
abbrev entry_dict : Platform → WcpAudit → Value
entry_dict py e = obj (
    field "event_type" (str e.event_type) (
      field "actor_did" (str e.actor_did) (
        field "timestamp" (str (py.isoformat e.timestamp)) (
          field "payload" (obj e.payload_json) (
            field "payload_hash" (str e.payload_hash) (
              field "prev_hash" (optional e.prev_hash) (
                field "this_hash" (str e.this_hash) (
                  field "claim_id" (optional e.claim_id)
                    (field "task_id" (optional e.task_id) end)))))))))

abbrev optional_dict : Option Fields → Value
optional_dict none = null
optional_dict (some f) = obj f

abbrev optional_bool : Option Bool → Value
optional_bool none = null
optional_bool (some b) = bool b

abbrev observe_dict : Platform → Observation → Value
observe_dict py o = obj (
    field "entries" (arr (of_list (map (entry_dict py) o.entries))) (
      field "event_types" (arr (of_list (map str o.event_types))) (
        field "verify_chain_ok" (optional_bool o.verify_chain_ok) (
          field "task_completed_payload" (optional_dict o.task_completed_payload) (
            field "task_voided_payload" (optional_dict o.task_voided_payload) (
              field "task_aborted_payload" (optional_dict o.task_aborted_payload) (
                field "attestation_attempts" (natural o.attestation_attempts) (
                  field "attempt_verifier_decisions" (arr (of_list o.attempt_verifier_decisions))
                    end))))))))

unfoldable pub reply : {A : Type 0} → (A → Value) → Exec A → Exec Value
reply dict m = do a ← m; pure (dict a)

-- The method body for a bound call; the heartbeat check is no method and returns its list.
unfoldable pub serve : Platform → Resolver → Registry → Request → Exec Value
serve py r reg (Request.capabilities_list w) = reply capability_dict (list_capabilities w)
serve py r reg (Request.capabilities_upsert w c p ttl) =
    reply capability_dict (upsert_capabilities py r w c p ttl)
serve py r reg (Request.capabilities_subscribe a f s) =
    reply subscription_dict (create_subscription py r a f s)
serve py r reg (Request.tasks_post t e i) = reply post_dict (post py r reg t e i)
serve py r reg (Request.tasks_claim t w e a b) = reply claim_dict (claim py r t w e a b)
serve py r reg (Request.tasks_execute c) = reply open_dict (execute_open py c)
serve py r reg (Request.tasks_execute_event c k at p s) =
    reply (λ _. obj (field "accepted" (bool true) end)) (execute_event py r c k at p s)
serve py r reg (Request.tasks_attest c evs) = reply (attest_dict py) (attest py r reg c evs)
serve py r reg (Request.tasks_supervise c h u) = reply supervise_dict (supervise py c h u)
serve py r reg (Request.tasks_abort c why s) =
    reply (λ id. obj (field "abort_id" (str id) end)) (abort py c why s)
serve py r reg (Request.audit_observe c t) = reply (observe_dict py) (observe_audit py c t)
serve py r reg Request.heartbeat_check =
    reply (λ ids. arr (of_list (map str ids))) (check_heartbeats py)
