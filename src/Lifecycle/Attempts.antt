-- ===== src/Lifecycle/Attempts.antt =====
-- The attempt counter of the bounded retry of attestation.
use worker_context_protocol.Prelude.{
  ℕ, ◌≤◌, ◌<◌, String, ◌≡◌, ◌⊎◌, inl, inr, some, List, [], All, arith,
}
use worker_context_protocol.Prelude.Int.{ℤ, pos_part}
use worker_context_protocol.Models.{
  WcpTask, TaskState, empty_db, posted, claimed, executing, supervising, attesting, rechecking,
  completed, voided, aborted,
}
use worker_context_protocol.Platform.{Platform}
use worker_context_protocol.Resolver.{Resolver}
use worker_context_protocol.Result.{Result, ok, err}
use worker_context_protocol.Requests.{Request, run}
use worker_context_protocol.Tables.{find_task}
use worker_context_protocol.Tasks.Attest.{attempt_limit}
use worker_context_protocol.Lifecycle.{
  Evolves, still, adds, moves, Move, CanAttest, while_executing, while_supervising,
  while_rechecking, CanStart, start_claimed, start_supervising, IsOpen, open_posted, open_claimed,
  open_executing, open_supervising, open_attesting, open_rechecking,
}
use worker_context_protocol.Lifecycle.Rows.{All-save_task, All-add, All-find_task}
use worker_context_protocol.Lifecycle.Refinement.{run-Evolves}
use worker_context_protocol.Verifier.Registry.{Registry}

-- The attempts that a limit allows: there is always one.
abbrev pub allowance : Result ℤ → ℕ
allowance (ok z) = pos_part z
allowance (err e) = 0

-- What a state says of the attempts used, at an allowance.
abbrev pub Counted : TaskState → ℕ → ℕ → Type 0
Counted posted used limit = used ≡ 0
Counted claimed used limit = used ≡ 0
Counted executing used limit = used ≡ 0
Counted supervising used limit = used ≡ 0
Counted rechecking used limit = (1 ≤ used) × (used < limit)
Counted attesting used limit = (1 ≤ used) × ((used ≤ limit) ⊎ (used ≡ 1))
Counted completed used limit = (1 ≤ used) × ((used ≤ limit) ⊎ (used ≡ 1))
Counted voided used limit = (1 ≤ used) × (limit ≤ used) × ((used ≤ limit) ⊎ (used ≡ 1))
Counted aborted used limit = (used ≤ limit) ⊎ (used ≤ 1)

abbrev pub IsCounted : Platform → WcpTask → Type 0
IsCounted py t = Counted t.state t.attestation_attempts_used (allowance (attempt_limit py t))

-- Before an attempt there is one left, or it is the first.
attempt_left :
    {s : TaskState} (used limit : ℕ)
    → CanAttest s
    → Counted s used limit
    → (used ≡ 0) ⊎ (used < limit)
attempt_left used limit while_executing h = inl h
attempt_left used limit while_supervising h = inl h
attempt_left used limit while_rechecking h = inr h.1

start_count : {s : TaskState} (used limit : ℕ) → CanStart s → Counted s used limit → used ≡ 0
start_count used limit start_claimed h = h
start_count used limit start_supervising h = h

open_count :
    {s : TaskState} (used limit : ℕ) → IsOpen s → Counted s used limit → (used ≤ limit) ⊎ (used ≤ 1)
open_count used limit open_posted h = inr (omega arith)
open_count used limit open_claimed h = inr (omega arith)
open_count used limit open_executing h = inr (omega arith)
open_count used limit open_supervising h = inr (omega arith)
open_count used limit open_attesting h = omega arith
open_count used limit open_rechecking h = inl (omega arith)

Move-IsCounted : (py : Platform) (t t' : WcpTask) → Move py t t' → IsCounted py t → IsCounted py t'
Move-IsCounted py t t' (Move.take s) h = ground arith
Move-IsCounted py t t' (Move.start s) h = start_count t.attestation_attempts_used _ s h
Move-IsCounted py t t' (Move.hand_over s) h = ground arith
Move-IsCounted py t t' (Move.accept s) h =
    let left = attempt_left t.attestation_attempts_used (allowance (attempt_limit py t)) s h in
    (omega arith, omega arith)
Move-IsCounted py t t' (Move.recheck limit l s more) h = rw l (omega arith, omega arith)
Move-IsCounted py t t' (Move.exhaust limit l s out) h =
    let left = attempt_left t.attestation_attempts_used (allowance (attempt_limit py t)) s h in
    let left' : (t.attestation_attempts_used ≡ 0)
        ⊎ (t.attestation_attempts_used < allowance (ok limit)) =
      rw l at left in
    rw l (omega arith, omega arith, omega arith)
Move-IsCounted py t t' (Move.hold s) h =
    let left = attempt_left t.attestation_attempts_used (allowance (attempt_limit py t)) s h in
    (omega arith, omega arith)
Move-IsCounted py t t' (Move.withdraw s) h = open_count t.attestation_attempts_used _ s h

Evolves-IsCounted :
    (py : Platform) (ts us : List WcpTask)
    → All (IsCounted py) ts
    → Evolves py ts us
    → All (IsCounted py) us
Evolves-IsCounted py ts us h still = h
Evolves-IsCounted py ts us h (adds {us = vs} u e free s n) =
    All-add (IsCounted py) u vs (rw s n) (Evolves-IsCounted py ts vs h e)
Evolves-IsCounted py ts us h (moves {us = vs} u u' e here m _) =
    let before = Evolves-IsCounted py ts vs h e in
    All-save_task (IsCounted py) u' vs
      (Move-IsCounted py u u' m (All-find_task (IsCounted py) u.task_id u vs here before)) before

-- From an empty database, whatever the requests: a task that has not been attested has used no
-- attempt, one in `rechecking` has an attempt left, one in `voided` has none left, and no counter
-- passes the limit, or one where the limit is less than one.
pub attempts_bounded :
    (py : Platform) (r : Resolver) (reg : Registry) (qs : List Request) (k : String) (t : WcpTask)
    → find_task k (run py r reg empty_db qs).tasks ≡ some t
    → IsCounted py t
attempts_bounded py r reg qs k t found =
    let tasks = (run py r reg empty_db qs).tasks in
    All-find_task (IsCounted py) k t tasks found
      (Evolves-IsCounted py [] tasks tt (run-Evolves py r reg empty_db qs))
