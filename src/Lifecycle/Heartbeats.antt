-- ===== src/Lifecycle/Heartbeats.antt =====
-- `check_heartbeats` as moves of the state machine.
use worker_context_protocol.Prelude.{
  ℕ, ◌+◌, true, ◌≡◌, refl, ◌⊎◌, inl, inr, some, List, [], ◌∷◌, All, arith, eq_iff, Bool-cases,
  Option-cases,
}
use worker_context_protocol.Models.{Db, WcpTask, WcpClaim, TaskState, executing, supervising}
use worker_context_protocol.Platform.{Platform}
use worker_context_protocol.Audit.{append}
use worker_context_protocol.Result.{Result-cases}
use worker_context_protocol.Tables.{find_task, save_task}
use worker_context_protocol.Lifecycle.{Evolves, still, moved, hand_over}
use worker_context_protocol.Lifecycle.Rows.{Evolves-trans, find_task-save_task, save_task_same}
use worker_context_protocol.Lifecycle.Operations.{find_task_self}
use worker_context_protocol.Tasks.Execute.{
  is_executing, executing_rows, stale_at, promote, promote_stale, check_heartbeats,
}

abbrev supervised : WcpTask → WcpTask
supervised t = record t { state = supervising }

-- A row of the join is still in the table, or has been promoted through another claim.
abbrev IsCurrent : List WcpTask → WcpClaim × WcpTask → Type 0
IsCurrent ts (c, t) =
    (t.state ≡ executing)
    × ((find_task t.task_id ts ≡ some t) ⊎ (find_task t.task_id ts ≡ some (supervised t)))

promote-tasks :
    (py : Platform) (c : WcpClaim) (t : WcpTask) (hb : ℕ) (db : Db)
    → (promote py c t hb db).1.tasks ≡ save_task (supervised t) db.tasks
unfolding promote append
promote-tasks py c t hb db = refl

promote-Evolves :
    (py : Platform) (c : WcpClaim) (t : WcpTask) (hb : ℕ) (db : Db)
    → IsCurrent db.tasks (c, t)
    → Evolves py db.tasks (promote py c t hb db).1.tasks
promote-Evolves py c t hb db (s, inl found) =
    rw promote-tasks (moved py t _ db.tasks found (hand_over s))
promote-Evolves py c t hb db (s, inr found) =
    rw promote-tasks (rw (save_task_same (supervised t) db.tasks found) still)

keep-IsCurrent :
    (ts : List WcpTask) (c d : WcpClaim) (t u : WcpTask)
    → IsCurrent ts (c, t)
    → IsCurrent ts (d, u)
    → IsCurrent (save_task (supervised t) ts) (d, u)
keep-IsCurrent ts c d t u ht hu =
    ground (arith, find_task-save_task u.task_id (supervised t) ts, eq_iff t.task_id u.task_id)

keep-All-IsCurrent :
    (ts : List WcpTask) (c : WcpClaim) (t : WcpTask) (rows : List (WcpClaim × WcpTask))
    → IsCurrent ts (c, t)
    → All (IsCurrent ts) rows
    → All (IsCurrent (save_task (supervised t) ts)) rows
keep-All-IsCurrent ts c t [] h hs = tt
keep-All-IsCurrent ts c t ((d, u) ∷ rows) h hs =
    (keep-IsCurrent ts c d t u h hs.0, keep-All-IsCurrent ts c t rows h hs.1)

promote_stale-Evolves :
    (py : Platform) (now : ℕ) (rows : List (WcpClaim × WcpTask)) (db : Db)
    → All (IsCurrent db.tasks) rows
    → Evolves py db.tasks (promote_stale py now rows db).1.tasks
unfolding promote_stale append
promote_stale-Evolves py now [] db h = still
promote_stale-Evolves py now ((c, t) ∷ rows) db h =
    elim (Option-cases (stale_at now c.last_heartbeat_at)) [
      | inl p ↦ rw (p, promote_stale) (promote_stale-Evolves py now rows db h.1)
      | inr (hb, p) ↦
          let db' = (promote py c t hb db).1 in
          let kept : All (IsCurrent db'.tasks) rows =
            rw promote-tasks (keep-All-IsCurrent db.tasks c t rows h.0 h.1) in
          let rest : Evolves py db.tasks (promote_stale py now rows db').1.tasks =
            Evolves-trans (promote-Evolves py c t hb db h.0)
              (promote_stale-Evolves py now rows db' kept) in
          elim (Result-cases (promote_stale py now rows db').0) [
            | inl (e, q) ↦ rw (p, promote_stale) (rw q rest)
            | inr (ids, q) ↦ rw (p, promote_stale) (rw q rest)
          ]
    ]

is_executing-eq : (s : TaskState) → is_executing s ≡ true → s ≡ executing
unfolding is_executing
is_executing-eq s h = ground arith

executing_rows-IsCurrent :
    (ts : List WcpTask) (cs : List WcpClaim) → All (IsCurrent ts) (executing_rows ts cs)
unfolding executing_rows
executing_rows-IsCurrent ts [] = tt
executing_rows-IsCurrent ts (c ∷ cs) = elim (Option-cases (find_task c.task_id ts)) [
  | inl p ↦ rw (p, executing_rows) (executing_rows-IsCurrent ts cs)
  | inr (t, p) ↦ elim (Bool-cases (is_executing t.state)) [
    | inl b ↦
        rw (p, executing_rows)
          (rw (b, executing_rows)
            (
              (is_executing-eq t.state b, inl (find_task_self c.task_id t ts p)),
              executing_rows-IsCurrent ts cs,
            ))
    | inr b ↦ rw (p, executing_rows) (rw (b, executing_rows) (executing_rows-IsCurrent ts cs))
  ]
]

pub check_heartbeats-Evolves :
    (py : Platform) (db : Db) → Evolves py db.tasks (check_heartbeats py db).1.tasks
unfolding check_heartbeats
check_heartbeats-Evolves py db =
    promote_stale-Evolves py (py.now db.ticks) (executing_rows db.tasks db.claims)
      (record db { ticks = db.ticks + 1 }) (executing_rows-IsCurrent db.tasks db.claims)
