-- ===== src/History/Chains.antt =====
-- The audit log across posts, heartbeat checks and whole runs.
use worker_context_protocol.Prelude.{
  ℕ, ◌+◌, String, true, ◌≡◌, ◌≢◌, refl, inl, inr, Option, List, [], ◌∷◌, Bool-cases, Option-cases,
}
use worker_context_protocol.Json.{Value, Fields, get, put, str}
use worker_context_protocol.Json.Builtins.{truthy}
use worker_context_protocol.Models.{Db, WcpTask, WcpClaim, empty_db}
use worker_context_protocol.Platform.{Platform}
use worker_context_protocol.Resolver.{Resolver}
use worker_context_protocol.Result.{Result-cases}
use worker_context_protocol.Audit.{
  append, verify_chain, order_by_timestamp, walk, is_set, has_claim,
}
use worker_context_protocol.Audit.Order.{select-IsIncreasing}
use worker_context_protocol.Audit.Append.{Signs, IsOrdered}
use worker_context_protocol.Capabilities.{list_capabilities}
use worker_context_protocol.History.{Sound, Ticks, append-IsSound, later-IsSound}
use worker_context_protocol.History.Attempts.{attest-IsSound}
use worker_context_protocol.History.Registrations.{
  upsert_capabilities-IsSound, create_subscription-IsSound,
}
use worker_context_protocol.History.Steps.{
  append-ok, execute_open-IsSound, supervise-IsSound, abort-IsSound, execute_event-IsSound,
  claim-IsSound,
}
use worker_context_protocol.Lifecycle.Post.{insert_task-cases}
use worker_context_protocol.Requests.{Request, step, run}
use worker_context_protocol.Tasks.Execute.{
  check_heartbeats, promote_stale, promote, executing_rows, stale_at,
}
use worker_context_protocol.Tasks.Observe.{observe_audit}
use worker_context_protocol.Tasks.Post.{post, task_id_of, posted_row}
use worker_context_protocol.Tasks.Post.Eligible.{count_eligible}
use worker_context_protocol.Tasks.Post.Requirement.{admit_task, poster_of, instant_of}
use worker_context_protocol.Verifier.Registry.{Registry}

task_id_of-rows :
    (py : Platform) (v : Value) (db : Db)
    → ((task_id_of py v db).1.audit ≡ db.audit) × ((task_id_of py v db).1.ticks ≡ db.ticks)
task_id_of-rows py v db = elim (Bool-cases (truthy v)) [
  | inl b ↦ rw b (refl, refl)
  | inr b ↦ rw b (refl, refl)
]

append-workers :
    (py : Platform) (event actor : String) (payload : Fields) (c t : Option String) (db : Db)
    → (append py event actor payload c t db).1.workers ≡ db.workers
unfolding append
append-workers py event actor payload c t db = refl

module _ (py : Platform) (signs : Signs py) where
  post-IsSound :
      (r : Resolver) (reg : Registry) (task : Fields) (expiry : String) (informational : Fields)
      (db : Db)
      → Sound py db
      → Sound py (post py r reg task expiry informational db).1
  unfolding post
  post-IsSound r reg task expiry informational db h = elim (Result-cases (admit_task reg task)) [
    | inl (e, a) ↦ rw a h
    | inr (u, a) ↦ rw a (
        let same = task_id_of-rows py (get "task_id" task) db in
        let db' = (task_id_of py (get "task_id" task) db).1 in
        let named : Sound py db' = rw same.0 (rw same.1 h) in
        elim (Result-cases (task_id_of py (get "task_id" task) db).0) [
          | inl (e, i) ↦ rw i named
          | inr (id, i) ↦ rw i (elim (Result-cases (poster_of r (put "task_id" (str id) task))) [
            | inl (e, w) ↦ rw w named
            | inr (who, w) ↦ rw w (elim (Result-cases (instant_of py expiry)) [
              | inl (e, t) ↦ rw t named
              | inr (at, t) ↦ rw t (
                  let stored = put "task_id" (str id) task in
                  let row = posted_row id who task stored at (py.now db'.ticks) in
                  let timed = later-IsSound py signs db'.audit db'.ticks 1 named in
                  elim (insert_task-cases row (record db' { ticks = db'.ticks + 1 })) [
                    | inl p ↦ rw p timed
                    | inr (free, p) ↦ rw p (
                        rw append-ok (
                          rw append-workers
                            (elim (Result-cases (count_eligible stored db'.workers)) [
                              | inl (e, c) ↦ rw c (append-IsSound py signs _ _ _ _ _ _ timed)
                              | inr (n, c) ↦ rw c (append-IsSound py signs _ _ _ _ _ _ timed)
                            ])))
                  ])
            ])
          ])
        ])
  ]

  promote_stale-IsSound :
      (now : ℕ) (rows : List (WcpClaim × WcpTask)) (db : Db)
      → Sound py db
      → Sound py (promote_stale py now rows db).1
  unfolding promote_stale promote
  promote_stale-IsSound now [] db h = h
  promote_stale-IsSound now ((c, t) ∷ rows) db h =
      elim (Option-cases (stale_at now c.last_heartbeat_at)) [
        | inl p ↦ rw (p, promote_stale) (promote_stale-IsSound now rows db h)
        | inr (hb, p) ↦
            let db' = (promote py c t hb db).1 in
            let after : Sound py db' = append-IsSound py signs _ _ _ _ _ _ h in
            elim (Result-cases (promote_stale py now rows db').0) [
              | inl (e, q) ↦
                  rw (p, promote_stale)
                    (rw append-ok (rw q (promote_stale-IsSound now rows db' after)))
              | inr (ids, q) ↦
                  rw (p, promote_stale)
                    (rw append-ok (rw q (promote_stale-IsSound now rows db' after)))
            ]
      ]

  check_heartbeats-IsSound : (db : Db) → Sound py db → Sound py (check_heartbeats py db).1
  unfolding check_heartbeats
  check_heartbeats-IsSound db h =
      promote_stale-IsSound (py.now db.ticks) (executing_rows db.tasks db.claims)
        (record db { ticks = db.ticks + 1 }) (later-IsSound py signs _ _ 1 h)

  observe_audit-IsSound :
      (c t : Option String) (db : Db) → Sound py db → Sound py (observe_audit py c t db).1
  unfolding observe_audit
  observe_audit-IsSound c t db h = elim (Bool-cases (is_set c)) [
    | inl b ↦ rw b h
    | inr b ↦ rw b (elim (Bool-cases (is_set t)) [ inl d ↦ rw d h | inr d ↦ rw d h ])
  ]

  step-IsSound :
      (r : Resolver) (reg : Registry) (db : Db) (q : Request)
      → Sound py db
      → Sound py (step py r reg db q)
  unfolding step list_capabilities
  step-IsSound r reg db (Request.capabilities_list w) h = h
  step-IsSound r reg db (Request.capabilities_upsert w c p ttl) h =
      upsert_capabilities-IsSound py signs r w c p ttl db h
  step-IsSound r reg db (Request.capabilities_subscribe a f s) h =
      create_subscription-IsSound py signs r a f s db h
  step-IsSound r reg db (Request.tasks_post t e i) h = post-IsSound r reg t e i db h
  step-IsSound r reg db (Request.tasks_claim t w e a b) h = claim-IsSound py signs r t w e a b db h
  step-IsSound r reg db (Request.tasks_execute c) h = execute_open-IsSound py signs c db h
  step-IsSound r reg db (Request.tasks_execute_event c k at p s) h =
      execute_event-IsSound py signs r c k at p s db h
  step-IsSound r reg db (Request.tasks_attest c evs) h = attest-IsSound py signs r reg c evs db h
  step-IsSound r reg db (Request.tasks_supervise c why u) h =
      supervise-IsSound py signs c why u db h
  step-IsSound r reg db (Request.tasks_abort c why s) h = abort-IsSound py signs c why s db h
  step-IsSound r reg db (Request.audit_observe c t) h = observe_audit-IsSound c t db h
  step-IsSound r reg db Request.heartbeat_check h = check_heartbeats-IsSound db h

  run-IsSound :
      (r : Resolver) (reg : Registry) (db : Db) (qs : List Request)
      → Sound py db
      → Sound py (run py r reg db qs)
  unfolding run
  run-IsSound r reg db [] h = h
  run-IsSound r reg db (q ∷ qs) h =
      run-IsSound r reg (step py r reg db q) qs (step-IsSound r reg db q h)

pub run_from_empty-IsSound :
    (py : Platform)
    → Signs py
    → (r : Resolver) (reg : Registry) (qs : List Request) → Sound py (run py r reg empty_db qs)
unfolding verify_chain walk order_by_timestamp
run_from_empty-IsSound py signs r reg qs = run-IsSound py signs r reg empty_db qs (record {
  timely = λ clock. record { increasing = tt; past = tt };
  intact = λ k n ordered. refl;
})

-- Where every reading of the clock is later than the one before, the rows of every claim are written
-- at increasing times.
pub Sound-IsOrdered :
    (py : Platform) (db : Db) (c : String) → Ticks py → Sound py db → IsOrdered c db.audit
Sound-IsOrdered py db c clock h =
    select-IsIncreasing (has_claim c) db.audit (h.timely clock).increasing

-- Where the signer's signatures verify, after any requests from an empty database, whether they
-- return or raise, the chain verifies of every claim whose identifier is not empty and whose entries
-- were written at increasing times, no two of them at one time.
pub chains_verify :
    (py : Platform)
    → Signs py
    → (r : Resolver) (reg : Registry) (qs : List Request) (c : String) → c ≢ ""
    → IsOrdered c (run py r reg empty_db qs).audit
    → verify_chain py c (run py r reg empty_db qs).audit ≡ true
chains_verify py signs r reg qs c named ordered =
    (run_from_empty-IsSound py signs r reg qs).intact c named ordered
