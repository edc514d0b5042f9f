-- ===== src/History/Attempts.antt =====
-- The audit log across `attest` of wcp_coordinator/tasks_service.py.
use worker_context_protocol.Prelude.{ℕ, String, inl, inr, List, [], ◌∷◌, Bool-cases, ltb}
use worker_context_protocol.Prelude.Int.{ℤ}
use worker_context_protocol.Json.{Value, Fields, obj, end, get_or}
use worker_context_protocol.Json.Builtins.{as_dict}
use worker_context_protocol.Models.{Db, WcpTask, WcpClaim}
use worker_context_protocol.Platform.{Platform}
use worker_context_protocol.Resolver.{Resolver, ResolvedDid}
use worker_context_protocol.Result.{Result-cases}
use worker_context_protocol.Audit.Append.{Signs}
use worker_context_protocol.History.{Sound, append-IsSound}
use worker_context_protocol.History.Steps.{append-ok}
use worker_context_protocol.Lifecycle.Attempt.{announce-ok}
use worker_context_protocol.Lifecycle.Operations.{claim_and_task-cases}
use worker_context_protocol.Tasks.Attest.{
  attest, attempt_limit, attestable, conclude, judge, announce,
}
use worker_context_protocol.Tasks.Attest.Evidence.{examine, examine_one, flushed}
use worker_context_protocol.Lifecycle.Evidence.{examine_one-rows, flushed-rows}
use worker_context_protocol.Tasks.Execute.{resolve_or_crash}
use worker_context_protocol.Verifier.Outcome.{Decision, pass, fail, review, VerificationOutcome}
use worker_context_protocol.Verifier.Registry.{Registry}
use worker_context_protocol.Verifier.Threshold.{evaluate_threshold}

module _ (py : Platform) (signs : Signs py) where
  announce-IsSound :
      (c : String) (task : WcpTask) (n left : ℕ) (agg : VerificationOutcome) (d : Decision)
      (db : Db)
      → Sound py db
      → Sound py (announce py c task n left agg d db).1
  unfolding announce
  announce-IsSound c task n left agg pass db h = append-IsSound py signs _ _ _ _ _ _ h
  announce-IsSound c task n left agg review db h = h
  announce-IsSound c task n left agg fail db h = elim (Bool-cases (ltb 0 left)) [
    | inl b ↦ rw b (append-IsSound py signs _ _ _ _ _ _ h)
    | inr b ↦ rw b (append-IsSound py signs _ _ _ _ _ _ h)
  ]

  conclude-IsSound :
      (c : String) (claim : WcpClaim) (task : WcpTask) (limit : ℤ) (agg : VerificationOutcome)
      (db : Db)
      → Sound py db
      → Sound py (conclude py c claim task limit agg db).1
  unfolding conclude
  conclude-IsSound c claim task limit agg db h = rw append-ok (
      rw announce-ok
        (announce-IsSound c task _ _ agg agg.decision _ (append-IsSound py signs _ _ _ _ _ _ h)))

  module _ (r : Resolver) (reg : Registry) (claim : WcpClaim) (who : ResolvedDid)
      (payload : Value) where
    examine-IsSound :
        (evs : List Fields) (db : Db)
        → Sound py db
        → Sound py (examine py r reg claim who payload evs db).1
    unfolding examine
    examine-IsSound [] db h = h
    examine-IsSound (ev ∷ evs) db h =
        let same = examine_one-rows py r reg claim who payload ev db in
        let one = examine_one py r reg claim who payload ev db in
        let next : Sound py one.1 = rw same.1 (rw same.2 h) in
        elim (Result-cases one.0) [
          | inl (e, q) ↦ rw q next
          | inr (o, q) ↦
              rw q (elim (Result-cases (examine py r reg claim who payload evs one.1).0) [
                | inl (e, w) ↦ rw w (examine-IsSound evs one.1 next)
                | inr (os, w) ↦ rw w (examine-IsSound evs one.1 next)
              ])
        ]

  judge-IsSound :
      (r : Resolver) (reg : Registry) (c : String) (claim : WcpClaim) (task : WcpTask) (limit : ℤ)
      (who : ResolvedDid) (evs : List Fields) (db : Db)
      → Sound py db
      → Sound py (judge py r reg c claim task limit who evs db).1
  unfolding judge
  judge-IsSound r reg c claim task limit who evs db h =
      let payload : Value = get_or "descriptor_payload" (obj end) task.task_json in
      let loop = examine py r reg claim who payload evs in
      let seen = flushed loop db in
      let same = (flushed-rows loop db).0 in
      let after : Sound py seen.1 =
        rw same.1 (rw same.2 (examine-IsSound r reg claim who payload evs db h)) in
      elim (Result-cases seen.0) [
        | inl (e, o) ↦ rw o after
        | inr (outcomes, o) ↦
            rw o
              (elim (Result-cases
                (as_dict (get_or "attestation_requirement" (obj end) task.task_json))) [
                  | inl (e, q) ↦ rw q after
                  | inr (req, q) ↦ rw q (elim (Result-cases (evaluate_threshold py req outcomes)) [
                    | inl (e, v) ↦ rw v after
                    | inr (agg, v) ↦ rw v (conclude-IsSound c claim task limit agg seen.1 after)
                  ])
                ])
      ]

  pub attest-IsSound :
      (r : Resolver) (reg : Registry) (c : String) (evs : List Fields) (db : Db)
      → Sound py db
      → Sound py (attest py r reg c evs db).1
  unfolding attest
  attest-IsSound r reg c evs db h = elim (claim_and_task-cases c db) [
    | inl (e, p) ↦ rw p h
    | inr (claim, task, p, found) ↦ rw p (elim (Result-cases (attestable task.state)) [
      | inl (e, q) ↦ rw q h
      | inr (u, q) ↦ rw q (elim (Result-cases (attempt_limit py task)) [
        | inl (e, l) ↦ rw l h
        | inr (limit, l) ↦
            rw l (elim (Result-cases (resolve_or_crash (r.resolve claim.worker_id))) [
              | inl (e, w) ↦ rw w h
              | inr (who, w) ↦ rw w (judge-IsSound r reg c claim task limit who evs db h)
            ])
      ])
    ])
  ]
