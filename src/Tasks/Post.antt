-- ===== src/Tasks/Post.antt =====
-- tasks/post: `post` of wcp_coordinator/tasks_service.py.
pub mod Requirement
pub mod Eligible
use worker_context_protocol.Prelude.{
  ℕ, String, Bool, true, false, not, ◌&&◌, ◌||◌, Option, none, some, List, [], ◌∷◌, ◌++◌, ◌==◌, any,
  contains, is_empty, length, if◌then◌else◌,
}
use worker_context_protocol.Prelude.Int.{ℤ, pos, ltb_ℤ}
use worker_context_protocol.Json
use worker_context_protocol.Json.{
  Value, null, bool, int, str, arr, obj, Fields, end, field, get, get_or, has, put, of_list,
}
use worker_context_protocol.Json.Builtins.{
  or_else, as_dict, as_str, iterate, contains_text, is_int, is_text, is_some, truthy,
}
use worker_context_protocol.Models.{WcpTask, WcpWorker, Db, posted}
use worker_context_protocol.Platform.{Platform}
use worker_context_protocol.Resolver.{Resolver}
use worker_context_protocol.Result.{ok, err, crash}
use worker_context_protocol.Audit.{append}
use worker_context_protocol.Exec.{Exec, lift, pure, uuid, utcnow, ◌>>=◌, ◌>>◌}
use worker_context_protocol.Tasks.Post.Requirement.{admit_task, poster_of, instant_of}
use worker_context_protocol.Tasks.Post.Eligible.{add_if, count_eligible}
use worker_context_protocol.Tables.{find_task}
use worker_context_protocol.Verifier.Registry.{Registry}

-- `task.get("task_id") or str(uuid.uuid4())`; a key that is no text is refused by the driver
abbrev pub task_id_of : Platform → Value → Exec String
task_id_of py v = if truthy v then lift (as_str v) else uuid py

-- the audit payload of `task_posted`
abbrev pub posted_payload : String → Fields → Fields → Fields
posted_payload task_id task informational =
    add_if (has "continuation_of" task) "continuation_of" (get "continuation_of" task) (
      add_if (truthy (obj informational)) "informational" (obj informational)
        (field "task_id" (str task_id) (field "accounting_ref" (get "accounting_ref" task) end)))

-- the dict that `post` returns
pub record PostReply : Type 0 where
  pub task_id : String
  pub eligible_workers_count : ℕ
  pub posted_at : String

-- `db.add` and `db.flush`: a second row with a primary key is an IntegrityError
unfoldable pub insert_task : WcpTask → Exec (Unit {0})
insert_task row db =
    if is_some (find_task row.task_id db.tasks)
    then (err crash, db)
    else (ok tt, record db { tasks = db.tasks ++ row ∷ [] })

-- the row that `post` inserts: `task` is the descriptor as received, `stored` with its identifier
unfoldable pub posted_row : String → String → Fields → Fields → ℕ → ℕ → WcpTask
posted_row task_id posted_by task stored expiry posted_at = record {
  task_id = task_id;
  posted_by = posted_by;
  descriptor_type = or_else (get_or "descriptor_type" (str "") task) (str "unknown");
  task_json = stored;
  expiry = expiry;
  state = posted;
  attestation_attempts_used = 0;
  posted_at = posted_at;
}

unfoldable pub post : Platform → Resolver → Registry → Fields → String → Fields → Exec PostReply
post py resolver registry task expiry informational = do
  lift (admit_task registry task)
  task_id ← task_id_of py (get "task_id" task)
  let task' = put "task_id" (str task_id) task
  posted_by ← lift (poster_of resolver task')
  expiry_dt ← lift (instant_of py expiry)
  posted_at ← utcnow py
  insert_task (posted_row task_id posted_by task task' expiry_dt posted_at)
  append py "task_posted" posted_by (posted_payload task_id task' informational) none (some task_id)
  eligible ← (λ db. (count_eligible task' db.workers, db))
  pure (record {
    task_id = task_id;
    eligible_workers_count = eligible;
    posted_at = py.isoformat posted_at;
  })
