-- ===== src/Lifecycle/Terminal.antt =====
-- Terminal states, and the fields of a task that no operation writes.
use mathlib.Core.Path.{subst}
use worker_context_protocol.Prelude.{
  ◌≤◌, String, ◌≡◌, refl, sym, ◌∙◌, inl, inr, some, List, arith, ◌==◌, eq_iff, Bool-cases, true,
  false,
}
use worker_context_protocol.Models.{Db, WcpTask, TaskState}
use worker_context_protocol.Platform.{Platform}
use worker_context_protocol.Resolver.{Resolver}
use worker_context_protocol.Requests.{Request, run}
use worker_context_protocol.Tables.{find_task}
use worker_context_protocol.Tasks.Supervise.{is_terminal}
use worker_context_protocol.Lifecycle.{
  Evolves, still, adds, moves, Move, CanAttest, while_executing, while_supervising,
  while_rechecking, CanStart, start_claimed, start_supervising, IsOpen, open_posted, open_claimed,
  open_executing, open_supervising, open_attesting, open_rechecking,
}
use worker_context_protocol.Lifecycle.Rows.{find_task-append, find_task-save_task, Move-task_id}
use worker_context_protocol.Lifecycle.Refinement.{run-Evolves}
use worker_context_protocol.Verifier.Registry.{Registry}

CanAttest-not_terminal : {s : TaskState} → CanAttest s → is_terminal s ≡ false
unfolding is_terminal
CanAttest-not_terminal while_executing = refl
CanAttest-not_terminal while_supervising = refl
CanAttest-not_terminal while_rechecking = refl

CanStart-not_terminal : {s : TaskState} → CanStart s → is_terminal s ≡ false
unfolding is_terminal
CanStart-not_terminal start_claimed = refl
CanStart-not_terminal start_supervising = refl

IsOpen-not_terminal : {s : TaskState} → IsOpen s → is_terminal s ≡ false
unfolding is_terminal
IsOpen-not_terminal open_posted = refl
IsOpen-not_terminal open_claimed = refl
IsOpen-not_terminal open_executing = refl
IsOpen-not_terminal open_supervising = refl
IsOpen-not_terminal open_attesting = refl
IsOpen-not_terminal open_rechecking = refl

-- A move starts from a state that is not terminal.
Move-not_terminal : (py : Platform) (t t' : WcpTask) → Move py t t' → is_terminal t.state ≡ false
Move-not_terminal py t t' (Move.take s) = rw s (unfold is_terminal in refl)
Move-not_terminal py t t' (Move.start s) = CanStart-not_terminal s
Move-not_terminal py t t' (Move.hand_over s) = rw s (unfold is_terminal in refl)
Move-not_terminal py t t' (Move.accept s) = CanAttest-not_terminal s
Move-not_terminal py t t' (Move.recheck _ _ s _) = CanAttest-not_terminal s
Move-not_terminal py t t' (Move.exhaust _ _ s _) = CanAttest-not_terminal s
Move-not_terminal py t t' (Move.hold s) = CanAttest-not_terminal s
Move-not_terminal py t t' (Move.withdraw s) = IsOpen-not_terminal s

Evolves-keeps_terminal :
    (py : Platform) (k : String) (t : WcpTask) (ts us : List WcpTask)
    → is_terminal t.state ≡ true
    → find_task k ts ≡ some t
    → Evolves py ts us
    → find_task k us ≡ some t
Evolves-keeps_terminal py k t ts us final found still = found
Evolves-keeps_terminal py k t ts us final found (adds {us = vs} u e free s n) =
    find_task-append k t vs _ (Evolves-keeps_terminal py k t ts vs final found e)
Evolves-keeps_terminal py k t ts us final found (moves {us = vs} u u' e here m _) =
    let before : find_task k vs ≡ some t = Evolves-keeps_terminal py k t ts vs final found e in
    ground (
      arith,
      find_task-save_task k u' vs,
      Move-not_terminal py u u' m,
      Move-task_id py u u' m,
      eq_iff u'.task_id k,
    )

-- Once a task is completed, voided or aborted, no requests of whatever kind change its row: not its
-- state, its attempt counter, its descriptor nor anything else.
pub terminal_absorbs :
    (py : Platform) (r : Resolver) (reg : Registry) (db : Db) (qs : List Request) (k : String)
    (t : WcpTask)
    → find_task k db.tasks ≡ some t
    → is_terminal t.state ≡ true
    → find_task k (run py r reg db qs).tasks ≡ some t
terminal_absorbs py r reg db qs k t found final =
    Evolves-keeps_terminal py k t db.tasks _ final found (run-Evolves py r reg db qs)

-- What every move leaves alone, and the count that it never lowers.
pub record SameTask (t t' : WcpTask) : Type 0 where
  pub task_id : t'.task_id ≡ t.task_id
  pub posted_by : t'.posted_by ≡ t.posted_by
  pub task_json : t'.task_json ≡ t.task_json
  pub expiry : t'.expiry ≡ t.expiry
  pub counted : t.attestation_attempts_used ≤ t'.attestation_attempts_used

Move-SameTask : (py : Platform) (t t' : WcpTask) → Move py t t' → SameTask t t'
Move-SameTask py t t' (Move.take _) = ground arith
Move-SameTask py t t' (Move.start _) = ground arith
Move-SameTask py t t' (Move.hand_over _) = ground arith
Move-SameTask py t t' (Move.accept _) = ground arith
Move-SameTask py t t' (Move.recheck _ _ _ _) = ground arith
Move-SameTask py t t' (Move.exhaust _ _ _ _) = ground arith
Move-SameTask py t t' (Move.hold _) = ground arith
Move-SameTask py t t' (Move.withdraw _) = ground arith

SameTask-trans : (t u v : WcpTask) → SameTask t u → SameTask u v → SameTask t v
SameTask-trans t u v a b = ground arith

Evolves-SameTask :
    (py : Platform) (k : String) (t : WcpTask) (ts us : List WcpTask)
    → find_task k ts ≡ some t
    → Evolves py ts us
    → (t' : WcpTask) × (find_task k us ≡ some t') × SameTask t t'
Evolves-SameTask py k t ts us found still = (t, found, ground arith)
Evolves-SameTask py k t ts us found (adds {us = vs} u e free s n) =
    let (t', f, same) = Evolves-SameTask py k t ts vs found e in
    (t', find_task-append k t' vs _ f, same)
Evolves-SameTask py k t ts us found (moves {us = vs} u u' e here m _) =
    let (t', f, same) = Evolves-SameTask py k t ts vs found e in
    elim (Bool-cases (u'.task_id == k)) [
      | inl b ↦
          let id : u.task_id ≡ k = sym (Move-task_id py u u' m) ∙ (eq_iff u'.task_id k).0 b in
          let both : t' ≡ u = cc (f, subst (λ j. find_task j vs ≡ some u) id here) in
          (
            u',
            rw find_task-save_task (rw (b, f)),
            SameTask-trans t u u' (subst (λ x. SameTask t x) both same) (Move-SameTask py u u' m),
          )
      | inr b ↦ (t', rw find_task-save_task (rw b f), same)
    ]

-- Whatever the requests, a task that is there stays there with its identifier, poster, descriptor and
-- expiry, and its attempt counter never falls.
pub tasks_persist :
    (py : Platform) (r : Resolver) (reg : Registry) (db : Db) (qs : List Request) (k : String)
    (t : WcpTask)
    → find_task k db.tasks ≡ some t
    → (t' : WcpTask) × (find_task k (run py r reg db qs).tasks ≡ some t') × SameTask t t'
tasks_persist py r reg db qs k t found =
    Evolves-SameTask py k t db.tasks _ found (run-Evolves py r reg db qs)
