-- ===== src/Lifecycle.antt =====
-- The abstract state machine of a task: the edges of spec/0.955.md, section 2, the departures of the
-- coordinator from them, and which rows may follow a row.
mod Rows
pub mod Operations
pub mod Evidence
pub mod Attest
pub mod Heartbeats
pub mod Post
pub mod Refinement
pub mod Terminal
pub mod Attempts
pub mod Exclusive
pub mod Handover
pub mod Verdict
pub mod Attempt
use worker_context_protocol.Prelude.{
  ℕ, ◌+◌, ◌<◌, ◌≡◌, ◌⊎◌, inl, inr, sym, Option, none, some, List, [], ◌∷◌, ◌++◌, false,
}
use worker_context_protocol.Prelude.Int.{ℤ, pos}
use mathlib.Core.Path.{subst}
use worker_context_protocol.Json.{Value, int, get_or}
use worker_context_protocol.Json.Builtins.{or_else}
use worker_context_protocol.Models.{
  WcpTask, TaskState, posted, claimed, executing, supervising, attesting, rechecking, completed,
  voided, aborted,
}
use worker_context_protocol.Platform.{Platform}
use worker_context_protocol.Result.{ok}
use worker_context_protocol.Tables.{find_task, save_task}
use worker_context_protocol.Tasks.Attest.{remaining_after, attempt_limit}
use worker_context_protocol.Verifier.Threshold.{int_of}

pub data CanAttest : TaskState → Type 0 where
  while_executing : CanAttest executing
  while_supervising : CanAttest supervising
  while_rechecking : CanAttest rechecking

pub data IsOpen : TaskState → Type 0 where
  open_posted : IsOpen posted
  open_claimed : IsOpen claimed
  open_executing : IsOpen executing
  open_supervising : IsOpen supervising
  open_attesting : IsOpen attesting
  open_rechecking : IsOpen rechecking

pub data CanStart : TaskState → Type 0 where
  start_claimed : CanStart claimed
  start_supervising : CanStart supervising

-- The table of the edges in the specification, without the start.
pub data Edge : TaskState → TaskState → Type 0 where
  edge_claim : Edge posted claimed
  edge_execute : Edge claimed executing
  edge_abort_claimed : Edge claimed aborted
  edge_attest : Edge executing attesting
  edge_supervise : Edge executing supervising
  edge_return : Edge supervising executing
  edge_abort_executing : Edge executing aborted
  edge_pass : Edge attesting completed
  edge_recheck : Edge attesting rechecking
  edge_retry : Edge rechecking attesting
  edge_void : Edge attesting voided

-- What the coordinator does without an edge: it attests while a supervisor has the task, and it
-- aborts a task that is posted, supervised, being attested or to be attested again.
pub data Departure : TaskState → TaskState → Type 0 where
  attest_supervised : Departure supervising attesting
  abort_posted : Departure posted aborted
  abort_supervising : Departure supervising aborted
  abort_attesting : Departure attesting aborted
  abort_rechecking : Departure rechecking aborted

-- One step: an edge or a departure.
abbrev pub Step : TaskState → TaskState → Type 0
Step s u = Edge s u ⊎ Departure s u

-- What one request does: a step, or two of them through `attesting`, where a call of attest submits
-- the evidence and gets the verdict.
abbrev pub Steps : TaskState → TaskState → Type 0
Steps s u = Step s u ⊎ (Step s attesting × Step attesting u)

-- `limit` is the number that the task's `max_attestation_attempts` reads as.
abbrev pub HasLimit : Platform → WcpTask → ℤ → Type 0
HasLimit py t limit = attempt_limit py t ≡ ok limit

-- One change of a task's row.
pub data Move (py : Platform) (t : WcpTask) : WcpTask → Type 0 where
  take : t.state ≡ posted → Move py t (record t { state = claimed })
  start : CanStart t.state → Move py t (record t { state = executing })
  hand_over : t.state ≡ executing → Move py t (record t { state = supervising })
  accept :
      CanAttest t.state
      → Move py t (record t {
        attestation_attempts_used = t.attestation_attempts_used + 1;
        state = completed;
      })
  recheck :
      (limit : ℤ)
      → HasLimit py t limit
      → CanAttest t.state
      → 0 < remaining_after limit (t.attestation_attempts_used + 1)
      → Move py t (record t {
        attestation_attempts_used = t.attestation_attempts_used + 1;
        state = rechecking;
      })
  exhaust :
      (limit : ℤ)
      → HasLimit py t limit
      → CanAttest t.state
      → remaining_after limit (t.attestation_attempts_used + 1) ≡ 0
      → Move py t
          (record t { attestation_attempts_used = t.attestation_attempts_used + 1; state = voided })
  hold :
      CanAttest t.state
      → Move py t (record t {
        attestation_attempts_used = t.attestation_attempts_used + 1;
        state = attesting;
      })
  withdraw : IsOpen t.state → Move py t (record t { state = aborted })

-- What a series of operations does to the table of tasks: rows are added as posted, and a row
-- changes by a move, along the steps of the states. No row is removed.
pub data Evolves (py : Platform) (ts : List WcpTask) : List WcpTask → Type 0 where
  still : Evolves py ts ts
  adds :
      {us : List WcpTask} (t : WcpTask)
      → Evolves py ts us
      → find_task t.task_id us ≡ none
      → t.state ≡ posted
      → t.attestation_attempts_used ≡ 0
      → Evolves py ts (us ++ t ∷ [])
  moves :
      {us : List WcpTask} (t t' : WcpTask)
      → Evolves py ts us
      → find_task t.task_id us ≡ some t
      → Move py t t'
      → Steps t.state t'.state
      → Evolves py ts (save_task t' us)

CanAttest-Step : {s : TaskState} → CanAttest s → Step s attesting
CanAttest-Step while_executing = inl edge_attest
CanAttest-Step while_supervising = inr attest_supervised
CanAttest-Step while_rechecking = inl edge_retry

CanStart-Step : {s : TaskState} → CanStart s → Step s executing
CanStart-Step start_claimed = inl edge_execute
CanStart-Step start_supervising = inl edge_return

IsOpen-Step : {s : TaskState} → IsOpen s → Step s aborted
IsOpen-Step open_posted = inr abort_posted
IsOpen-Step open_claimed = inl edge_abort_claimed
IsOpen-Step open_executing = inl edge_abort_executing
IsOpen-Step open_supervising = inr abort_supervising
IsOpen-Step open_attesting = inr abort_attesting
IsOpen-Step open_rechecking = inr abort_rechecking

Move-Steps : (py : Platform) (t t' : WcpTask) → Move py t t' → Steps t.state t'.state
Move-Steps py t t' (Move.take s) = inl (subst (λ u. Step u claimed) (sym s) (inl edge_claim))
Move-Steps py t t' (Move.start s) = inl (CanStart-Step s)
Move-Steps py t t' (Move.hand_over s) =
    inl (subst (λ u. Step u supervising) (sym s) (inl edge_supervise))
Move-Steps py t t' (Move.accept s) = inr (CanAttest-Step s, inl edge_pass)
Move-Steps py t t' (Move.recheck _ _ s _) = inr (CanAttest-Step s, inl edge_recheck)
Move-Steps py t t' (Move.exhaust _ _ s _) = inr (CanAttest-Step s, inl edge_void)
Move-Steps py t t' (Move.hold s) = inl (CanAttest-Step s)
Move-Steps py t t' (Move.withdraw s) = inl (IsOpen-Step s)

-- A row of the table moves.
pub moved :
    (py : Platform) (t t' : WcpTask) (ts : List WcpTask)
    → find_task t.task_id ts ≡ some t
    → Move py t t'
    → Evolves py ts (save_task t' ts)
moved py t t' ts found m = moves t t' still found m (Move-Steps py t t' m)
