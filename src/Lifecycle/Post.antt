-- ===== src/Lifecycle/Post.antt =====
-- tasks/post as a move of the state machine.
use worker_context_protocol.Prelude.{
  ℕ, ◌+◌, String, ◌≡◌, refl, ◌⊎◌, inl, inr, none, [], ◌∷◌, ◌++◌, Bool-cases, Option-cases,
}
use worker_context_protocol.Json.{Value, Fields, get, put, str}
use worker_context_protocol.Json.Builtins.{truthy}
use worker_context_protocol.Models.{Db, WcpTask, posted}
use worker_context_protocol.Platform.{Platform}
use worker_context_protocol.Resolver.{Resolver}
use worker_context_protocol.Result.{Error, ok, err, Result-cases}
use worker_context_protocol.Audit.{append}
use worker_context_protocol.Tables.{find_task}
use worker_context_protocol.Lifecycle.{Evolves, still, adds}
use worker_context_protocol.Tasks.Post.{post, insert_task, task_id_of, posted_row}
use worker_context_protocol.Tasks.Post.Requirement.{admit_task, poster_of, instant_of}
use worker_context_protocol.Tasks.Post.Eligible.{count_eligible}
use worker_context_protocol.Verifier.Registry.{Registry}

-- Choosing the identifier writes no row.
task_id_of-tasks : (py : Platform) (v : Value) (db : Db) → (task_id_of py v db).1.tasks ≡ db.tasks
task_id_of-tasks py v db = elim (Bool-cases (truthy v)) [ inl b ↦ rw b | inr b ↦ rw b ]

pub insert_task-cases :
    (row : WcpTask) (db : Db)
    → ((insert_task row db) ≡ (err Error.crash, db))
      ⊎ ((find_task row.task_id db.tasks ≡ none)
          × (insert_task row db ≡ (ok tt, record db { tasks = db.tasks ++ row ∷ [] })))
unfolding insert_task
insert_task-cases row db = elim (Option-cases (find_task row.task_id db.tasks)) [
  | inl p ↦ inr (p, rw p)
  | inr (t, p) ↦ inl (rw p)
]

posted_row-IsPosted :
    (id who : String) (task stored : Fields) (expiry at : ℕ)
    → let row = posted_row id who task stored expiry at in
      (row.state ≡ posted) × (row.attestation_attempts_used ≡ 0)
unfolding posted_row
posted_row-IsPosted id who task stored expiry at = (refl, refl)

pub post-Evolves :
    (py : Platform) (r : Resolver) (reg : Registry) (task : Fields) (expiry : String)
    (informational : Fields) (db : Db)
    → Evolves py db.tasks (post py r reg task expiry informational db).1.tasks
unfolding post append
post-Evolves py r reg task expiry informational db = elim (Result-cases (admit_task reg task)) [
  | inl (e, a) ↦ rw a still
  | inr (u, a) ↦ rw a (
      let same = task_id_of-tasks py (get "task_id" task) db in
      let db' = (task_id_of py (get "task_id" task) db).1 in
      elim (Result-cases (task_id_of py (get "task_id" task) db).0) [
        | inl (e, i) ↦ rw i (rw same still)
        | inr (id, i) ↦ rw i (elim (Result-cases (poster_of r (put "task_id" (str id) task))) [
          | inl (e, w) ↦ rw w (rw same still)
          | inr (who, w) ↦ rw w (elim (Result-cases (instant_of py expiry)) [
            | inl (e, t) ↦ rw t (rw same still)
            | inr (at, t) ↦ rw t (
                let stored = put "task_id" (str id) task in
                let now = py.now db'.ticks in
                let row = posted_row id who task stored at now in
                let start = posted_row-IsPosted id who task stored at now in
                elim (insert_task-cases row (record db' { ticks = db'.ticks + 1 })) [
                  | inl p ↦ rw p (rw same still)
                  | inr (free, p) ↦
                      let free' : find_task row.task_id db.tasks ≡ none = rw same at free in
                      let added : Evolves py db.tasks (db'.tasks ++ row ∷ []) =
                        rw same (adds row still free' start.0 start.1) in
                      elim (Result-cases (count_eligible stored db'.workers)) [
                        | inl (e, c) ↦ rw p (rw c added)
                        | inr (n, c) ↦ rw p (rw c added)
                      ]
                ])
          ])
        ])
      ])
]
