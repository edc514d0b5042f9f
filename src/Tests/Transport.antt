-- ===== src/Tests/Transport.antt =====
-- Requests over the two transports, and the export of what they leave.
use worker_context_protocol.Prelude.{◌≡◌, refl, true, [], ◌∷◌}
use worker_context_protocol.Prelude.Int.{pos}
use worker_context_protocol.Json.{Fields, str, int, obj, end, field}
use worker_context_protocol.Models.{executing, empty_db}
use worker_context_protocol.Federation.Interop.{served_chain_accepted, Digests}
use worker_context_protocol.Federation.Segment.{verify_chain_segment}
use worker_context_protocol.Router.{http_rpc, ws_request}
use worker_context_protocol.Router.Export.{federation_audit_chain}
use worker_context_protocol.Router.Traffic.{http_run-Runs, http_run}
use worker_context_protocol.Router.Transactions.{
  SameRows, ws_request_atomic, transports_commit_alike, replies_documented, documented_response,
}
use worker_context_protocol.Rpc.Binding.{accepts, bind_tasks_execute, bind_tasks_abort}
use worker_context_protocol.Rpc.Dispatch.{
  dispatch, dispatch_entry, method_of, call_with, serve_bound,
}
use worker_context_protocol.Rpc.Serve.{serve, reply}
use worker_context_protocol.Audit.{append}
use worker_context_protocol.Tables.{find_claim, find_task}
use worker_context_protocol.Tasks.Common.{claim_and_task}
use worker_context_protocol.Tasks.Execute.{execute_open, can_open}
use worker_context_protocol.Tasks.Supervise.{abort, is_terminal}
use worker_context_protocol.Tests.{test_platform, test_resolver, db_in, descriptor}
use worker_context_protocol.Audit.Append.{IsOrdered}
use worker_context_protocol.History.Chains.{Sound-IsOrdered, run_from_empty-IsSound}
use worker_context_protocol.Requests.{run}
use worker_context_protocol.Tests.Runs.{test_platform-Signs, test_platform-Ticks}
use worker_context_protocol.Verifier.Registry.{default_registry}

abbrev execute_again : Fields
execute_again = field "jsonrpc" (str "2.0") (
    field "id" (int (pos 7)) (
      field "method" (str "tasks/execute")
        (field "params" (obj (field "claim_id" (str "c1") end)) end)))

abbrev abort_it : Fields
abort_it = field "jsonrpc" (str "2.0") (
    field "id" (int (pos 8)) (
      field "method" (str "tasks/abort")
        (field "params" (obj (field "claim_id" (str "c1") (field "reason" (str "rain") end))) end)))

ws_request_atomic_example :
    SameRows
      (db_in executing)
      (ws_request test_platform test_resolver default_registry execute_again (db_in executing)).1
unfolding ws_request dispatch dispatch_entry method_of call_with serve_bound serve reply
    bind_tasks_execute accepts execute_open claim_and_task find_claim find_task can_open
ws_request_atomic_example =
    ws_request_atomic test_platform test_resolver default_registry execute_again (db_in executing)
      refl

transports_commit_alike_example :
    http_rpc test_platform test_resolver default_registry abort_it (db_in executing)
    ≡ ws_request test_platform test_resolver default_registry abort_it (db_in executing)
unfolding ws_request dispatch dispatch_entry method_of call_with serve_bound serve reply
    bind_tasks_abort accepts abort claim_and_task find_claim find_task is_terminal append
transports_commit_alike_example =
    transports_commit_alike test_platform test_resolver default_registry abort_it "tasks/abort"
      (db_in executing) refl refl refl

replies_documented_example :
    (documented_response
        (http_rpc test_platform test_resolver default_registry execute_again (db_in executing)).0
      ≡ true)
    × (documented_response
          (ws_request test_platform test_resolver default_registry execute_again
            (db_in executing)).0
        ≡ true)
replies_documented_example =
    replies_documented test_platform test_resolver default_registry execute_again (db_in executing)

abbrev post_it : Fields
post_it = field "jsonrpc" (str "2.0") (
    field "id" (int (pos 1)) (
      field "method" (str "tasks/post") (
        field "params"
          (obj (field "task" (obj descriptor) (field "expiry" (str "2026-01-01T00:00:00Z") end)))
          end)))

pub test_platform-Digests : Digests test_platform
test_platform-Digests bytes = cc

served-IsOrdered :
    IsOrdered "id-1"
      (http_run test_platform test_resolver default_registry empty_db
        (post_it ∷ abort_it ∷ [])).audit
served-IsOrdered =
    let (qs, p) =
      http_run-Runs test_platform test_resolver default_registry empty_db
        (post_it ∷ abort_it ∷ []) in
    rw p (
      Sound-IsOrdered test_platform (run test_platform test_resolver default_registry empty_db qs)
        "id-1" test_platform-Ticks
        (run_from_empty-IsSound test_platform test_platform-Signs test_resolver default_registry
          qs))

served_chain_accepted_example :
    verify_chain_segment test_platform (
      federation_audit_chain test_platform "id-1"
        (http_run test_platform test_resolver default_registry empty_db
          (post_it ∷ abort_it ∷ [])).audit)
    ≡ true
served_chain_accepted_example =
    served_chain_accepted test_platform test_platform-Digests test_platform-Signs test_resolver
      default_registry (post_it ∷ abort_it ∷ []) "id-1" (λ e. cc) served-IsOrdered
