-- ===== src/Rpc/Steps.antt =====
-- `dispatch` and the services' steps: what a call leaves in the session.
use worker_context_protocol.Prelude.{String, ◌≡◌, refl, inl, inr, Option, none, some}
use worker_context_protocol.Json.{Value, Fields}
use worker_context_protocol.Models.{Db}
use worker_context_protocol.Platform.{Platform}
use worker_context_protocol.Resolver.{Resolver}
use worker_context_protocol.Result.{Result-cases}
use worker_context_protocol.Exec.{Exec}
use worker_context_protocol.Requests.{Request, step}
use worker_context_protocol.Rpc.Binding.{Bound}
use worker_context_protocol.Rpc.Dispatch.{
  dispatch, dispatch_entry, call_with, serve_bound, method_of, params_of,
}
use worker_context_protocol.Rpc.Serve.{serve, reply}
use worker_context_protocol.Verifier.Registry.{Registry}

reply-rows : {A : Type 0} (dict : A → Value) (m : Exec A) (db : Db) → (reply dict m db).1 ≡ (m db).1
unfolding reply
reply-rows dict m db = elim (Result-cases (m db).0) [
  | inl (e, p) ↦ rw p refl
  | inr (a, p) ↦ rw p refl
]

-- The dict that a method returns is built after the rows have been written.
pub serve-eq-step :
    (py : Platform) (r : Resolver) (reg : Registry) (q : Request) (db : Db)
    → (serve py r reg q db).1 ≡ step py r reg db q
unfolding serve step
serve-eq-step py r reg (Request.capabilities_list w) db = reply-rows _ _ db
serve-eq-step py r reg (Request.capabilities_upsert w c p ttl) db = reply-rows _ _ db
serve-eq-step py r reg (Request.capabilities_subscribe a f s) db = reply-rows _ _ db
serve-eq-step py r reg (Request.tasks_post t e i) db = reply-rows _ _ db
serve-eq-step py r reg (Request.tasks_claim t w e a b) db = reply-rows _ _ db
serve-eq-step py r reg (Request.tasks_execute c) db = reply-rows _ _ db
serve-eq-step py r reg (Request.tasks_execute_event c k at p s) db = reply-rows _ _ db
serve-eq-step py r reg (Request.tasks_attest c evs) db = reply-rows _ _ db
serve-eq-step py r reg (Request.tasks_supervise c h u) db = reply-rows _ _ db
serve-eq-step py r reg (Request.tasks_abort c why s) db = reply-rows _ _ db
serve-eq-step py r reg (Request.audit_observe c t) db = reply-rows _ _ db
serve-eq-step py r reg Request.heartbeat_check db = reply-rows _ _ db

-- The rows are as they were, or as one service call leaves them.
pub data Served (py : Platform) (r : Resolver) (reg : Registry) (db : Db) : Db → Type 0 where
  untouched : Served py r reg db db
  stepped : (q : Request) → Served py r reg db (step py r reg db q)

serve_bound-Served :
    (py : Platform) (r : Resolver) (reg : Registry) (b : Bound) (db : Db)
    → Served py r reg db (serve_bound py r reg b db).1
unfolding serve_bound
serve_bound-Served py r reg (Bound.call q) db = rw (serve-eq-step py r reg q db) (Served.stepped q)
serve_bound-Served py r reg Bound.type_error db = Served.untouched
serve_bound-Served py r reg Bound.off_type db = Served.untouched

call_with-Served :
    (py : Platform) (r : Resolver) (reg : Registry) (bind : Fields → Bound) (f : Option Fields)
    (db : Db)
    → Served py r reg db (call_with py r reg bind f db).1
unfolding call_with
call_with-Served py r reg bind none db = Served.untouched
call_with-Served py r reg bind (some f) db = serve_bound-Served py r reg (bind f) db

dispatch_entry-Served :
    (py : Platform) (r : Resolver) (reg : Registry) (o : Option (Fields → Bound)) (params : Value)
    (db : Db)
    → Served py r reg db (dispatch_entry py r reg o params db).1
unfolding dispatch_entry
dispatch_entry-Served py r reg none params db = Served.untouched
dispatch_entry-Served py r reg (some bind) params db =
    call_with-Served py r reg bind (params_of params) db

pub dispatch-Served :
    (py : Platform) (r : Resolver) (reg : Registry) (m : String) (params : Value) (db : Db)
    → Served py r reg db (dispatch py r reg m params db).1
unfolding dispatch
dispatch-Served py r reg m params db = dispatch_entry-Served py r reg (method_of m) params db
