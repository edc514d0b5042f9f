-- ===== src/Tasks/Supervise.antt =====
-- tasks/supervise and tasks/abort: `supervise` and `abort` of wcp_coordinator/tasks_service.py.
use worker_context_protocol.Prelude.{String, Bool, true, false, some, [], ◌∷◌}
use worker_context_protocol.Json.{str, obj, Fields, end, field, get}
use worker_context_protocol.Models.{
  TaskState, state_value, executing, supervising, completed, voided, aborted,
}
use worker_context_protocol.Platform.{Platform}
use worker_context_protocol.Result.{task_state_invalid, Result, ok, err}
use worker_context_protocol.Exec.{Exec, lift, pure, raise_if, uuid, ◌>>=◌, ◌>>◌}
use worker_context_protocol.Audit.{append}
use worker_context_protocol.Tasks.Common.{claim_and_task, store_task}

-- From `executing` the supervisor takes over, from `supervising` it hands back.
unfoldable pub handed_over : TaskState → Result TaskState
handed_over executing = ok supervising
handed_over supervising = ok executing
handed_over _ = err task_state_invalid

-- the dict that `supervise` returns
pub record SuperviseReply : Type 0 where
  pub supervisor_id : String
  pub session_url : String
  pub takeover_authority : String

unfoldable pub supervise : Platform → String → String → String → Exec SuperviseReply
supervise py claim_id handoff_reason urgency = do
  (claim, task) ← claim_and_task claim_id
  state ← lift (handed_over task.state)
  store_task (record task { state = state })
  session ← uuid py
  append py "supervision_handoff" claim.worker_id
      (field "claim_id" (str claim_id) (
        field "handoff_reason" (str handoff_reason)
          (field "urgency" (str urgency) (field "new_state" (str (state_value state)) end))))
      (some claim_id) (some task.task_id)
  pure (record {
    supervisor_id = "did:wcp:rentably-ops";
    session_url = py.format "wss://localhost/wcp/sup/{}" (str session ∷ []);
    takeover_authority = "full";
  })

unfoldable pub is_terminal : TaskState → Bool
is_terminal completed = true
is_terminal voided = true
is_terminal aborted = true
is_terminal _ = false

unfoldable pub abort : Platform → String → String → Fields → Exec String
abort py claim_id reason state_snapshot = do
  (claim, task) ← claim_and_task claim_id
  raise_if (is_terminal task.state) task_state_invalid
  store_task (record task { state = aborted })
  append py "task_aborted" claim.worker_id
      (field "claim_id" (str claim_id) (
        field "task_id" (str task.task_id) (
          field "reason" (str reason) (
            field "state_snapshot" (obj state_snapshot)
              (field "accounting_ref" (get "accounting_ref" task.task_json) end)))))
      (some claim_id) (some task.task_id)
  uuid py
