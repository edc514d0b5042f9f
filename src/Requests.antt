-- ===== src/Requests.antt =====
-- The coordinator as a machine over requests: the calls of rpc_dispatch.py that reach a service,
-- and the periodic `check_heartbeats`.
use worker_context_protocol.Prelude.{String, Option, List, [], ◌∷◌}
use worker_context_protocol.Prelude.Int.{ℤ}
use worker_context_protocol.Json.{Fields}
use worker_context_protocol.Models.{Db}
use worker_context_protocol.Platform.{Platform}
use worker_context_protocol.Resolver.{Resolver}
use worker_context_protocol.Capabilities.{
  upsert_capabilities, list_capabilities, create_subscription,
}
use worker_context_protocol.Tasks.Post.{post}
use worker_context_protocol.Tasks.Claim.{claim}
use worker_context_protocol.Tasks.Execute.{execute_open, execute_event, check_heartbeats}
use worker_context_protocol.Tasks.Attest.{attest}
use worker_context_protocol.Tasks.Supervise.{supervise, abort}
use worker_context_protocol.Tasks.Observe.{observe_audit}
use worker_context_protocol.Verifier.Registry.{Registry}

-- A call with its keyword arguments bound. What a service takes and never reads is left out
-- (`supervision`, `compensating_action`, the `state_snapshot` of supervise).
pub data Request : Type 0 where
  capabilities_list : String → Request
  capabilities_upsert : String → Fields → String → ℤ → Request
  capabilities_subscribe : String → Option Fields → Option ℤ → Request
  tasks_post : Fields → String → Fields → Request
  tasks_claim : String → String → String → Fields → Option String → Request
  tasks_execute : String → Request
  tasks_execute_event : String → String → String → Fields → String → Request
  tasks_attest : String → List Fields → Request
  tasks_supervise : String → String → String → Request
  tasks_abort : String → String → Fields → Request
  audit_observe : Option String → Option String → Request
  heartbeat_check : Request

-- The rows after a call. A call that raises leaves in the session what it had written.
unfoldable pub step : Platform → Resolver → Registry → Db → Request → Db
step py r reg db (capabilities_list w) = (list_capabilities w db).1
step py r reg db (capabilities_upsert w c p ttl) = (upsert_capabilities py r w c p ttl db).1
step py r reg db (capabilities_subscribe a f s) = (create_subscription py r a f s db).1
step py r reg db (tasks_post t e i) = (post py r reg t e i db).1
step py r reg db (tasks_claim t w e a b) = (claim py r t w e a b db).1
step py r reg db (tasks_execute c) = (execute_open py c db).1
step py r reg db (tasks_execute_event c k at p s) = (execute_event py r c k at p s db).1
step py r reg db (tasks_attest c evs) = (attest py r reg c evs db).1
step py r reg db (tasks_supervise c h u) = (supervise py c h u db).1
step py r reg db (tasks_abort c why s) = (abort py c why s db).1
step py r reg db (audit_observe c t) = (observe_audit py c t db).1
step py r reg db heartbeat_check = (check_heartbeats py db).1

unfoldable pub run : Platform → Resolver → Registry → Db → List Request → Db
run py r reg db [] = db
run py r reg db (q ∷ qs) = run py r reg (step py r reg db q) qs
