-- ===== src/Lifecycle/Attest.antt =====
-- tasks/attest as a move of the state machine.
use worker_context_protocol.Prelude.{
  ◌+◌, String, ◌≡◌, ◌∙◌, refl, inl, inr, some, List, [], ◌∷◌, arith, eq_iff, Bool-cases, ltb,
}
use worker_context_protocol.Prelude.Int.{ℤ}
use worker_context_protocol.Json.{Value, Fields, obj, end, get_or}
use worker_context_protocol.Json.Builtins.{as_dict}
use worker_context_protocol.Models.{
  Db, WcpTask, WcpClaim, TaskState, executing, supervising, attesting, rechecking,
}
use worker_context_protocol.Platform.{Platform}
use worker_context_protocol.Resolver.{Resolver, ResolvedDid}
use worker_context_protocol.Result.{ok, Result-cases}
use worker_context_protocol.Audit.{append}
use worker_context_protocol.Tables.{find_task, save_task}
use worker_context_protocol.Lifecycle.{
  Evolves, still, moved, Move, accept, recheck, exhaust, hold, CanAttest, while_executing,
  while_supervising, while_rechecking, HasLimit,
}
use worker_context_protocol.Lifecycle.Evidence.{examine_one-rows, flushed-rows}
use worker_context_protocol.Lifecycle.Operations.{claim_and_task-cases, find_task_self}
use worker_context_protocol.Tasks.Execute.{resolve_or_crash}
use worker_context_protocol.Tasks.Attest.{
  attest, attempt_limit, attestable, conclude, judge, remaining_after, next_state,
}
use worker_context_protocol.Tasks.Attest.Evidence.{examine, examine_one, flushed}
use worker_context_protocol.Verifier.Outcome.{Decision, pass, fail, review, VerificationOutcome}
use worker_context_protocol.Verifier.Registry.{Registry}
use worker_context_protocol.Verifier.Threshold.{evaluate_threshold}

module _ (py : Platform) (r : Resolver) (reg : Registry) (c : WcpClaim) (who : ResolvedDid)
    (task_payload : Value) where
  examine_one-tasks :
      (ev : Fields) (db : Db) → (examine_one py r reg c who task_payload ev db).1.tasks ≡ db.tasks
  examine_one-tasks ev db = (examine_one-rows py r reg c who task_payload ev db).0

  -- The loop over the evidence writes attestation rows and no task.
  pub examine-tasks :
      (evs : List Fields) (db : Db)
      → (examine py r reg c who task_payload evs db).1.tasks ≡ db.tasks
  unfolding examine
  examine-tasks [] db = refl
  examine-tasks (ev ∷ evs) db =
      let (o, db') = examine_one py r reg c who task_payload ev db in
      ground (arith, examine_one-tasks ev db, examine-tasks evs db')

pub save_task-save_task :
    (t u : WcpTask) (ts : List WcpTask)
    → t.task_id ≡ u.task_id
    → save_task u (save_task t ts) ≡ save_task u ts
unfolding save_task
save_task-save_task t u [] h = refl
save_task-save_task t u (x ∷ ts) h = ground (
  arith,
  save_task-save_task t u ts h,
  eq_iff x.task_id t.task_id,
  eq_iff x.task_id u.task_id,
  eq_iff t.task_id u.task_id,
)

unfoldable pub after_attempt : WcpTask → ℤ → Decision → WcpTask
after_attempt task limit d = record task {
  attestation_attempts_used = task.attestation_attempts_used + 1;
  state = next_state d (remaining_after limit (task.attestation_attempts_used + 1));
}

pub conclude-tasks :
    (py : Platform) (c : String) (claim : WcpClaim) (task : WcpTask) (limit : ℤ)
    (agg : VerificationOutcome) (db : Db)
    → (conclude py c claim task limit agg db).1.tasks
      ≡ save_task (after_attempt task limit agg.decision) db.tasks
unfolding conclude append after_attempt
conclude-tasks py c claim task limit agg db = ground (
  arith,
  save_task-save_task
      (record task {
        attestation_attempts_used = task.attestation_attempts_used + 1;
        state = attesting;
      })
      (after_attempt task limit agg.decision) db.tasks,
)

pub attestable-CanAttest : (s : TaskState) → attestable s ≡ ok tt → CanAttest s
unfolding attestable
attestable-CanAttest executing h = while_executing
attestable-CanAttest supervising h = while_supervising
attestable-CanAttest rechecking h = while_rechecking
attestable-CanAttest _ h = cc

after_attempt-Move :
    (py : Platform) (task : WcpTask) (limit : ℤ) (d : Decision)
    → HasLimit py task limit
    → CanAttest task.state
    → Move py task (after_attempt task limit d)
unfolding after_attempt next_state
after_attempt-Move py task limit pass l s = accept s
after_attempt-Move py task limit review l s = hold s
after_attempt-Move py task limit fail l s =
    let left = remaining_after limit (task.attestation_attempts_used + 1) in
    elim (Bool-cases (ltb 0 left)) [
      | inl b ↦ rw b (recheck limit l s (ground arith))
      | inr b ↦ rw b (exhaust limit l s (ground arith))
    ]

-- The part of `attest` after the attestation limit has been read.
module _ (py : Platform) (r : Resolver) (reg : Registry) (c : String) (claim : WcpClaim)
    (task : WcpTask) (limit : ℤ) (who : ResolvedDid) (evs : List Fields) (db : Db)
    (found : find_task claim.task_id db.tasks ≡ some task) (known : HasLimit py task limit)
    (allowed : CanAttest task.state) where
  conclude-Evolves :
      (agg : VerificationOutcome) (db' : Db)
      → db'.tasks ≡ db.tasks
      → Evolves py db.tasks (conclude py c claim task limit agg db').1.tasks
  conclude-Evolves agg db' same = rw (conclude-tasks py c claim task limit agg db') (
      rw same (
        moved py task _ db.tasks (find_task_self claim.task_id task db.tasks found)
          (after_attempt-Move py task limit agg.decision known allowed)))

  judge-Evolves : Evolves py db.tasks (judge py r reg c claim task limit who evs db).1.tasks
  unfolding judge
  judge-Evolves =
      let payload : Value = get_or "descriptor_payload" (obj end) task.task_json in
      let loop = examine py r reg claim who payload evs in
      let seen = flushed loop db in
      let same : seen.1.tasks ≡ db.tasks =
        (flushed-rows loop db).0.0 ∙ examine-tasks py r reg claim who payload evs db in
      elim (Result-cases seen.0) [
        | inl (e, o) ↦ rw o (rw same still)
        | inr (outcomes, o) ↦
            rw o
              (elim (Result-cases
                (as_dict (get_or "attestation_requirement" (obj end) task.task_json))) [
                  | inl (e, q) ↦ rw q (rw same still)
                  | inr (req, q) ↦ rw q (elim (Result-cases (evaluate_threshold py req outcomes)) [
                    | inl (e, v) ↦ rw v (rw same still)
                    | inr (agg, v) ↦ rw v (conclude-Evolves agg seen.1 same)
                  ])
                ])
      ]

pub attest-Evolves :
    (py : Platform) (r : Resolver) (reg : Registry) (c : String) (evs : List Fields) (db : Db)
    → Evolves py db.tasks (attest py r reg c evs db).1.tasks
unfolding attest
attest-Evolves py r reg c evs db = elim (claim_and_task-cases c db) [
  | inl (e, p) ↦ rw p still
  | inr (claim, task, p, found) ↦ rw p (elim (Result-cases (attestable task.state)) [
    | inl (e, q) ↦ rw q still
    | inr (u, q) ↦ rw q (elim (Result-cases (attempt_limit py task)) [
      | inl (e, l) ↦ rw l still
      | inr (limit, l) ↦ rw l (elim (Result-cases (resolve_or_crash (r.resolve claim.worker_id))) [
        | inl (e, w) ↦ rw w still
        | inr (who, w) ↦ rw w (
            judge-Evolves py r reg c claim task limit who evs db found l
              (attestable-CanAttest task.state q))
      ])
    ])
  ])
]
