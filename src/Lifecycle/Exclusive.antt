-- ===== src/Lifecycle/Exclusive.antt =====
-- Two claims of one task.
use worker_context_protocol.Prelude.{String, Bool, true, false, ◌≡◌, refl, some, List, eq_iff}
use worker_context_protocol.Models.{WcpTask, TaskState, posted, claimed}
use worker_context_protocol.Platform.{Platform}
use worker_context_protocol.Resolver.{Resolver}
use worker_context_protocol.Result.{Error, task_preempted, task_state_invalid}
use worker_context_protocol.Lifecycle.Operations.{find_task-id}
use worker_context_protocol.Lifecycle.Rows.{find_task-save_task}
use worker_context_protocol.Verifier.Registry.{Registry}
use worker_context_protocol.Tables.{find_task, save_task}

pub find_task-claimed :
    (t : String) (task : WcpTask) (ts : List WcpTask)
    → find_task t ts ≡ some task
    → find_task t (save_task (record task { state = claimed }) ts)
      ≡ some (record task { state = claimed })
find_task-claimed t task ts h =
    let same : task.task_id ≡ t = find_task-id t task ts h in
    rw find_task-save_task (rw ((eq_iff task.task_id t).1 same) (rw h refl))

abbrev is_posted : TaskState → Bool
is_posted posted = true
is_posted _ = false

-- A row that is stored in another state than posted.
abbrev IsTaken : String → List WcpTask → Type 0
IsTaken k ts = (t : WcpTask) × (find_task k ts ≡ some t) × (is_posted t.state ≡ false)

-- How a claim of a task in the state is refused.
abbrev pub IsRefusal : TaskState → Error → Type 0
IsRefusal posted e = ⊥
IsRefusal claimed e = e ≡ task_preempted
IsRefusal _ e = e ≡ task_state_invalid
