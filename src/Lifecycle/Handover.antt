-- ===== src/Lifecycle/Handover.antt =====
-- Two calls of tasks/supervise on one claim.
use worker_context_protocol.Prelude.{
  String, ◌≡◌, ◌≢◌, refl, inl, inr, some, arith, eq_iff, ◌∙◌, ap, Option-cases,
}
use worker_context_protocol.Models.{Db, WcpTask, WcpClaim, TaskState, executing, supervising}
use worker_context_protocol.Platform.{Platform}
use worker_context_protocol.Result.{ok, err, Error}
use worker_context_protocol.Audit.{append}
use worker_context_protocol.Tables.{find_task, find_claim, save_task}
use worker_context_protocol.Tasks.Common.{claim_and_task, or_not_found}
use worker_context_protocol.Exec.{resume, pure}
use worker_context_protocol.Tasks.Supervise.{supervise, handed_over, SuperviseReply}
use worker_context_protocol.Lifecycle.Operations.{
  claim_and_task-cases, find_task-id, find_task_self, handed_over-cases,
}
use worker_context_protocol.Lifecycle.Attest.{save_task-save_task}
use worker_context_protocol.Lifecycle.Rows.{find_task-save_task, save_task_same}

supervise-rows :
    (py : Platform) (c reason urgency : String) (db : Db) (claim : WcpClaim) (task : WcpTask)
    (s : TaskState)
    → claim_and_task c db ≡ (ok (claim, task), db)
    → handed_over task.state ≡ ok s
    → ((supervise py c reason urgency db).1.tasks ≡ save_task (record task { state = s }) db.tasks)
      × ((supervise py c reason urgency db).1.claims ≡ db.claims)
unfolding supervise append
supervise-rows py c reason urgency db claim task s p h = rw p (rw h (refl, refl))

claim_and_task-after :
    (c : String) (claim : WcpClaim) (task task' : WcpTask) (db db' : Db)
    → claim_and_task c db ≡ (ok (claim, task), db)
    → db'.claims ≡ db.claims
    → find_task claim.task_id db'.tasks ≡ some task'
    → claim_and_task c db' ≡ (ok (claim, task'), db')
unfolding claim_and_task
claim_and_task-after c claim task task' db db' p same found =
    rw same (elim (Option-cases (find_claim c db.claims)) [
      | inl q ↦ absurd (cc (rw q at p))
      | inr (d, q) ↦
          let one : d ≡ claim = loaded_claim d claim task db (rw q at p) in
          rw q (rw one (rw found refl))
    ])
  where
    loaded_claim :
        (d claim : WcpClaim) (task : WcpTask) (db : Db)
        → (resume {B = WcpClaim × WcpTask}
            (λ t. pure (d, t))
            (or_not_found (find_task d.task_id db.tasks))
            db)
          ≡ (ok (claim, task), db)
        → d ≡ claim
    loaded_claim d claim task db h = ground arith

supervise_twice :
    (py : Platform) (c : String) (db : Db) (claim : WcpClaim) (task : WcpTask) (s : TaskState)
    (reason urgency reason' urgency' : String)
    → claim_and_task c db ≡ (ok (claim, task), db)
    → find_task claim.task_id db.tasks ≡ some task
    → handed_over task.state ≡ ok s
    → handed_over s ≡ ok task.state
    → (supervise py c reason' urgency' (supervise py c reason urgency db).1).1.tasks ≡ db.tasks
supervise_twice py c db claim task s reason urgency reason' urgency' p found there back =
    let first = supervise-rows py c reason urgency db claim task s p there in
    let after : WcpTask = record task { state = s } in
    let id : task.task_id ≡ claim.task_id = find_task-id claim.task_id task db.tasks found in
    let loaded : find_task claim.task_id (save_task after db.tasks) ≡ some after =
      rw find_task-save_task (rw ((eq_iff task.task_id claim.task_id).1 id) (rw found refl)) in
    let again =
      claim_and_task-after c claim task after db (supervise py c reason urgency db).1 p first.1
        (rw first.0 loaded) in
    let second =
      supervise-rows py c reason' urgency' (supervise py c reason urgency db).1 claim after
        task.state again back in
    second.0
    ∙ ap (save_task task) first.0
    ∙ save_task-save_task after task db.tasks refl
    ∙ save_task_same task db.tasks (find_task_self claim.task_id task db.tasks found)

not_loaded :
    (py : Platform) (c reason urgency : String) (db : Db) (reply : SuperviseReply) (e : Error)
    → claim_and_task c db ≡ (err e, db)
    → (supervise py c reason urgency db).0 ≢ ok reply
unfolding supervise
not_loaded py c reason urgency db reply e p h = cc (rw p at h)

refused :
    (py : Platform) (c reason urgency : String) (db : Db) (reply : SuperviseReply)
    (claim : WcpClaim) (task : WcpTask)
    → claim_and_task c db ≡ (ok (claim, task), db)
    → handed_over task.state ≡ err Error.task_state_invalid
    → (supervise py c reason urgency db).0 ≢ ok reply
unfolding supervise
refused py c reason urgency db reply claim task p q h = let h1 = rw p at h in cc (rw q at h1)

-- Where a supervisor takes a task over, or hands it back, the next call of tasks/supervise on the
-- claim gives the table of tasks back as it was.
pub supervise-supervise :
    (py : Platform) (c reason urgency : String) (db : Db) (reply : SuperviseReply)
    → (supervise py c reason urgency db).0 ≡ ok reply
    → (reason' urgency' : String)
    → (supervise py c reason' urgency' (supervise py c reason urgency db).1).1.tasks ≡ db.tasks
supervise-supervise py c reason urgency db reply h reason' urgency' =
    elim (claim_and_task-cases c db) [
      | inl (e, p) ↦ absurd (not_loaded py c reason urgency db reply e p h)
      | inr (claim, task, p, found) ↦ elim (handed_over-cases task.state) [
        | inl q ↦ absurd (refused py c reason urgency db reply claim task p q h)
        | inr (inl (s, q)) ↦
            supervise_twice py c db claim task supervising reason urgency reason' urgency' p found q
              (rw s (unfold handed_over in refl))
        | inr (inr (s, q)) ↦
            supervise_twice py c db claim task executing reason urgency reason' urgency' p found q
              (rw s (unfold handed_over in refl))
      ]
    ]
