-- ===== src/Rpc/Dispatch.antt =====
-- `Dispatcher.dispatch`.
use worker_context_protocol.Prelude.{String, ◌==◌, if◌then◌else◌, Option, none, some}
use worker_context_protocol.Json.{Value, obj, Fields, end}
use worker_context_protocol.Json.Builtins.{truthy}
use worker_context_protocol.Models.{Db}
use worker_context_protocol.Platform.{Platform}
use worker_context_protocol.Resolver.{Resolver}
use worker_context_protocol.Result.{Result, ok, err}
use worker_context_protocol.Rpc.{Failure, rpc_error, internal, failure_of, method_not_found}
use worker_context_protocol.Rpc.Binding.{
  Bound, call, type_error, off_type, bind_capabilities_list, bind_capabilities_upsert,
  bind_capabilities_subscribe, bind_tasks_post, bind_tasks_claim, bind_tasks_execute,
  bind_tasks_execute_event, bind_tasks_attest, bind_tasks_supervise, bind_tasks_abort,
  bind_audit_observe,
}
use worker_context_protocol.Rpc.Serve.{serve}
use worker_context_protocol.Verifier.Registry.{Registry}

-- the table of the methods, by name
unfoldable pub method_of : String → Option (Fields → Bound)
method_of m =
    if m == "capabilities/list"
    then some bind_capabilities_list
    else if m == "capabilities/upsert"
    then some bind_capabilities_upsert
    else if m == "capabilities/subscribe"
    then some bind_capabilities_subscribe
    else if m == "tasks/post"
    then some bind_tasks_post
    else if m == "tasks/claim"
    then some bind_tasks_claim
    else if m == "tasks/execute"
    then some bind_tasks_execute
    else if m == "tasks/execute.event"
    then some bind_tasks_execute_event
    else if m == "tasks/attest"
    then some bind_tasks_attest
    else if m == "tasks/supervise"
    then some bind_tasks_supervise
    else if m == "tasks/abort"
    then some bind_tasks_abort
    else if m == "audit/observe"
    then some bind_audit_observe
    else none

-- What `dispatch` ends with: a value, a failure, or nothing that the model follows.
pub data Answer : Type 0 where
  returned : Value → Answer
  raised : Failure → Answer
  unmodelled : Answer

abbrev answer_of : Result Value → Answer
answer_of (ok v) = returned v
answer_of (err e) = raised (failure_of e)

-- the call of a method with its arguments bound
unfoldable pub serve_bound : Platform → Resolver → Registry → Bound → Db → Answer × Db
serve_bound py r reg (call q) db =
    let (result, db') = serve py r reg q db in (answer_of result, db')
serve_bound py r reg type_error db = (raised internal, db)
serve_bound py r reg off_type db = (unmodelled, db)

-- `params = params or {}`, and what `**params` does with what is no dict
abbrev pub params_of : Value → Option Fields
params_of (obj f) = some f
params_of v = if truthy v then none else some end

-- `await method(**params)`
unfoldable pub call_with :
    Platform → Resolver → Registry → (Fields → Bound) → Option Fields → Db → Answer × Db
call_with py r reg bind none db = (raised internal, db)
call_with py r reg bind (some f) db = serve_bound py r reg (bind f) db

-- what `dispatch` does with the entry of the table
unfoldable pub dispatch_entry :
    Platform → Resolver → Registry → Option (Fields → Bound) → Value → Db → Answer × Db
dispatch_entry py r reg none params db = (raised (rpc_error method_not_found), db)
dispatch_entry py r reg (some bind) params db = call_with py r reg bind (params_of params) db

unfoldable pub dispatch : Platform → Resolver → Registry → String → Value → Db → Answer × Db
dispatch py r reg method params db = dispatch_entry py r reg (method_of method) params db
