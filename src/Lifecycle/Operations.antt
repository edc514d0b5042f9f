-- ===== src/Lifecycle/Operations.antt =====
-- The operations of Tasks, but post and attest, as moves of the state machine.
use worker_context_protocol.Prelude.{
  String, true, false, ◌≡◌, sym, ◌⊎◌, inl, inr, Option, none, some, List, [], ◌∷◌, arith, ◌==◌,
  eq_iff, Bool-cases, Option-cases,
}
use mathlib.Core.Path.{subst}
use worker_context_protocol.Models.{
  Db, WcpTask, WcpClaim, TaskState, posted, claimed, executing, supervising, attesting, rechecking,
}
use worker_context_protocol.Platform.{Platform}
use worker_context_protocol.Result.{ok, err, Error}
use worker_context_protocol.Audit.{append}
use worker_context_protocol.Tables.{find_task, find_claim, save_task}
use worker_context_protocol.Lifecycle.{
  Evolves, still, moved, take, start, hand_over, withdraw, start_claimed, start_supervising,
  CanStart, IsOpen, open_posted, open_claimed, open_executing, open_supervising, open_attesting,
  open_rechecking,
}
use worker_context_protocol.Tasks.Common.{claim_and_task}
use worker_context_protocol.Resolver.{Resolver}
use worker_context_protocol.Json.{Fields}
use worker_context_protocol.Tasks.Claim.{claim}
use worker_context_protocol.Tasks.Claim.Checks.{claimable}
use worker_context_protocol.Tasks.Supervise.{supervise, abort, handed_over, is_terminal}
use worker_context_protocol.Tasks.Execute.{execute_open, execute_event, beat, can_open}

pub find_task-id :
    (k : String) (t : WcpTask) (ts : List WcpTask) → find_task k ts ≡ some t → t.task_id ≡ k
unfolding find_task
find_task-id k t [] h = cc
find_task-id k t (x ∷ ts) h = ground (arith, find_task-id k t ts, eq_iff x.task_id k)

-- A loaded task is the row with its own key.
pub find_task_self :
    (k : String) (t : WcpTask) (ts : List WcpTask)
    → find_task k ts ≡ some t
    → find_task t.task_id ts ≡ some t
find_task_self k t ts h = subst (λ j. find_task j ts ≡ some t) (sym (find_task-id k t ts h)) h

-- `_claim_and_task` reads two rows or raises, and writes nothing.
pub claim_and_task-cases :
    (c : String) (db : Db)
    → ((e : Error) × (claim_and_task c db ≡ (err e, db)))
      ⊎ ((claim : WcpClaim) × (task : WcpTask) × (claim_and_task c db ≡ (ok (claim, task), db))
          × (find_task claim.task_id db.tasks ≡ some task))
unfolding claim_and_task
claim_and_task-cases c db = elim (Option-cases (find_claim c db.claims)) [
  | inl p ↦ inl (Error.task_not_found, rw p)
  | inr (claim, p) ↦ elim (Option-cases (find_task claim.task_id db.tasks)) [
    | inl q ↦ inl (Error.task_not_found, rw p (rw q))
    | inr (task, q) ↦ inr (claim, task, rw p (rw q), q)
  ]
]

start-CanStart : (s : TaskState) → can_open s ≡ true → CanStart s
unfolding can_open
start-CanStart claimed h = start_claimed
start-CanStart supervising h = start_supervising
start-CanStart _ h = cc

pub execute_open-Evolves :
    (py : Platform) (c : String) (db : Db) → Evolves py db.tasks (execute_open py c db).1.tasks
unfolding execute_open append
execute_open-Evolves py c db = elim (claim_and_task-cases c db) [
  | inl (e, p) ↦ rw p still
  | inr (claim, task, p, found) ↦ elim (Bool-cases (can_open task.state)) [
    | inl b ↦ rw p (
        rw b (
          moved py task _ db.tasks (find_task_self claim.task_id task db.tasks found)
            (start (start-CanStart task.state b))))
    | inr b ↦ rw p (rw b still)
  ]
]

pub handed_over-cases :
    (s : TaskState)
    → (handed_over s ≡ err Error.task_state_invalid)
      ⊎ ((s ≡ executing) × (handed_over s ≡ ok supervising))
      ⊎ ((s ≡ supervising) × (handed_over s ≡ ok executing))
unfolding handed_over
handed_over-cases s = ground arith

pub supervise-Evolves :
    (py : Platform) (c reason urgency : String) (db : Db)
    → Evolves py db.tasks (supervise py c reason urgency db).1.tasks
unfolding supervise append
supervise-Evolves py c reason urgency db = elim (claim_and_task-cases c db) [
  | inl (e, p) ↦ rw p still
  | inr (claim, task, p, found) ↦
      let self = find_task_self claim.task_id task db.tasks found in
      elim (handed_over-cases task.state) [
        | inl q ↦ rw p (rw q still)
        | inr (inl (s, q)) ↦ rw p (rw q (moved py task _ db.tasks self (hand_over s)))
        | inr (inr (s, q)) ↦ rw p (
            rw q (moved py task _ db.tasks self (start (subst CanStart (sym s) start_supervising))))
      ]
]

is_terminal-IsOpen : (s : TaskState) → is_terminal s ≡ false → IsOpen s
unfolding is_terminal
is_terminal-IsOpen posted h = open_posted
is_terminal-IsOpen claimed h = open_claimed
is_terminal-IsOpen executing h = open_executing
is_terminal-IsOpen supervising h = open_supervising
is_terminal-IsOpen attesting h = open_attesting
is_terminal-IsOpen rechecking h = open_rechecking
is_terminal-IsOpen _ h = cc

pub abort-Evolves :
    (py : Platform) (c reason : String) (snapshot : Fields) (db : Db)
    → Evolves py db.tasks (abort py c reason snapshot db).1.tasks
unfolding abort append
abort-Evolves py c reason snapshot db = elim (claim_and_task-cases c db) [
  | inl (e, p) ↦ rw p still
  | inr (claim, task, p, found) ↦ elim (Bool-cases (is_terminal task.state)) [
    | inl b ↦ rw p (rw b still)
    | inr b ↦ rw p (
        rw b (
          moved py task _ db.tasks (find_task_self claim.task_id task db.tasks found)
            (withdraw (is_terminal-IsOpen task.state b))))
  ]
]

claim-tasks :
    (py : Platform) (r : Resolver) (t w eta : String) (a : Fields) (bid : Option String) (db : Db)
    (task : WcpTask)
    → find_task t db.tasks ≡ some task
    → ((claim py r t w eta a bid db).1.tasks ≡ db.tasks)
      ⊎ ((task.state ≡ posted)
          × ((claim py r t w eta a bid db).1.tasks
              ≡ save_task (record task { state = claimed }) db.tasks))
unfolding claim append claimable
claim-tasks py r t w eta a bid db task h = ground arith

beat-tasks :
    (py : Platform) (c : WcpClaim) (kind at : String) (db : Db)
    → (beat py c kind at db).1.tasks ≡ db.tasks
unfolding beat
beat-tasks py c kind at db = elim (Bool-cases (kind == "heartbeat")) [
  | inl b ↦ rw b (ground arith)
  | inr b ↦ rw b
]

execute_event-tasks :
    (py : Platform) (r : Resolver) (c kind at : String) (payload : Fields) (sig : String) (db : Db)
    → (execute_event py r c kind at payload sig db).1.tasks ≡ db.tasks
unfolding execute_event append
execute_event-tasks py r c kind at payload sig db = elim (claim_and_task-cases c db) [
  | inl (e, p) ↦ rw p
  | inr (claim, task, p, found) ↦ rw p (ground (arith, beat-tasks py claim kind at db))
]

pub execute_event-Evolves :
    (py : Platform) (r : Resolver) (c kind at : String) (payload : Fields) (sig : String) (db : Db)
    → Evolves py db.tasks (execute_event py r c kind at payload sig db).1.tasks
execute_event-Evolves py r c kind at payload sig db =
    rw (execute_event-tasks py r c kind at payload sig db) still

claim_missing :
    (py : Platform) (r : Resolver) (t w eta : String) (a : Fields) (bid : Option String) (db : Db)
    → find_task t db.tasks ≡ none
    → (claim py r t w eta a bid db).1.tasks ≡ db.tasks
unfolding claim
claim_missing py r t w eta a bid db h = rw h

pub claim-Evolves :
    (py : Platform) (r : Resolver) (t w eta : String) (a : Fields) (bid : Option String) (db : Db)
    → Evolves py db.tasks (claim py r t w eta a bid db).1.tasks
claim-Evolves py r t w eta a bid db = elim (Option-cases (find_task t db.tasks)) [
  | inl h ↦ rw (claim_missing py r t w eta a bid db h) still
  | inr (task, h) ↦ elim (claim-tasks py r t w eta a bid db task h) [
    | inl p ↦ rw p still
    | inr (s, p) ↦ rw p (moved py task _ db.tasks (find_task_self t task db.tasks h) (take s))
  ]
]
