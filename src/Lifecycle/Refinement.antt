-- ===== src/Lifecycle/Refinement.antt =====
-- The coordinator against the state machine of a task.
use worker_context_protocol.Prelude.{String, ◌≡◌, Option, List, [], ◌∷◌, arith}
use worker_context_protocol.Prelude.Int.{ℤ}
use worker_context_protocol.Json.{Fields}
use worker_context_protocol.Models.{Db}
use worker_context_protocol.Platform.{Platform}
use worker_context_protocol.Resolver.{Resolver}
use worker_context_protocol.Capabilities.{
  upsert_capabilities, list_capabilities, create_subscription,
}
use worker_context_protocol.Requests.{Request, step, run}
use worker_context_protocol.Lifecycle.{Evolves, still}
use worker_context_protocol.Lifecycle.Rows.{Evolves-trans}
use worker_context_protocol.Lifecycle.Operations.{
  claim-Evolves, execute_open-Evolves, execute_event-Evolves, supervise-Evolves, abort-Evolves,
}
use worker_context_protocol.Lifecycle.Attest.{attest-Evolves}
use worker_context_protocol.Lifecycle.Heartbeats.{check_heartbeats-Evolves}
use worker_context_protocol.Lifecycle.Post.{post-Evolves}
use worker_context_protocol.Tasks.Observe.{observe_audit}
use worker_context_protocol.Verifier.Registry.{Registry}

capabilities-tasks :
    (py : Platform) (r : Resolver) (w : String) (c : Fields) (p : String) (ttl : ℤ) (db : Db)
    → (upsert_capabilities py r w c p ttl db).1.tasks ≡ db.tasks
unfolding upsert_capabilities
capabilities-tasks py r w c p ttl db = ground arith

subscribe-tasks :
    (py : Platform) (r : Resolver) (a : String) (f : Option Fields) (s : Option ℤ) (db : Db)
    → (create_subscription py r a f s db).1.tasks ≡ db.tasks
unfolding create_subscription
subscribe-tasks py r a f s db = ground arith

observe-tasks :
    (py : Platform) (c t : Option String) (db : Db) → (observe_audit py c t db).1.tasks ≡ db.tasks
unfolding observe_audit
observe-tasks py c t db = ground arith

module _ (py : Platform) (r : Resolver) (reg : Registry) where
  step-Evolves : (db : Db) (q : Request) → Evolves py db.tasks (step py r reg db q).tasks
  unfolding step list_capabilities
  step-Evolves db (Request.capabilities_list w) = still
  step-Evolves db (Request.capabilities_upsert w c p ttl) =
      rw (capabilities-tasks py r w c p ttl db) still
  step-Evolves db (Request.capabilities_subscribe a f s) = rw (subscribe-tasks py r a f s db) still
  step-Evolves db (Request.tasks_post t e i) = post-Evolves py r reg t e i db
  step-Evolves db (Request.tasks_claim t w e a b) = claim-Evolves py r t w e a b db
  step-Evolves db (Request.tasks_execute c) = execute_open-Evolves py c db
  step-Evolves db (Request.tasks_execute_event c k at p s) =
      execute_event-Evolves py r c k at p s db
  step-Evolves db (Request.tasks_attest c evs) = attest-Evolves py r reg c evs db
  step-Evolves db (Request.tasks_supervise c h u) = supervise-Evolves py c h u db
  step-Evolves db (Request.tasks_abort c why s) = abort-Evolves py c why s db
  step-Evolves db (Request.audit_observe c t) = rw (observe-tasks py c t db) still
  step-Evolves db Request.heartbeat_check = check_heartbeats-Evolves py db

  -- Whatever the requests, and whether they return or raise, the table of tasks changes only by
  -- adding posted rows and by moves, and a move takes the state of its row along an edge of the
  -- specification or one of the five departures from it, or along two of these through attesting.
  pub run-Evolves : (db : Db) (qs : List Request) → Evolves py db.tasks (run py r reg db qs).tasks
  unfolding run
  run-Evolves db [] = still
  run-Evolves db (q ∷ qs) = Evolves-trans (step-Evolves db q) (run-Evolves (step py r reg db q) qs)
