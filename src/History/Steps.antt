-- ===== src/History/Steps.antt =====
-- The audit log across claim, execute, supervise and abort of wcp_coordinator/tasks_service.py.
use worker_context_protocol.Prelude.{
  String, ◌≡◌, refl, inl, inr, Option, Bool-cases, ◌==◌, ltb, any,
}
use worker_context_protocol.Json.{Fields, obj}
use worker_context_protocol.Models.{Db, WcpClaim}
use worker_context_protocol.Platform.{Platform}
use worker_context_protocol.Resolver.{Resolver}
use worker_context_protocol.Result.{ok, Result-cases}
use worker_context_protocol.Audit.{append}
use worker_context_protocol.Audit.Append.{Signs}
use worker_context_protocol.History.{Sound, append-IsSound, later-IsSound}
use worker_context_protocol.Lifecycle.Operations.{claim_and_task-cases}
use worker_context_protocol.Tasks.Execute.{
  execute_open, can_open, execute_event, beat, is_executing, resolve_or_crash, event_fields,
}
use worker_context_protocol.Tables.{find_task, find_worker}
use worker_context_protocol.Tasks.Common.{or_not_found}
use worker_context_protocol.Tasks.Claim.{claim, accepted_for}
use worker_context_protocol.Tasks.Claim.Checks.{
  claimable, or_unknown_worker, check_self_dealing, check_acceptance,
}
use worker_context_protocol.Tasks.Post.Requirement.{instant_of}
use worker_context_protocol.Tasks.Supervise.{supervise, abort, is_terminal, handed_over}

pub append-ok :
    (py : Platform) (event actor : String) (payload : Fields) (c t : Option String) (db : Db)
    → (append py event actor payload c t db).0 ≡ ok tt
unfolding append
append-ok py event actor payload c t db = refl

module _ (py : Platform) (signs : Signs py) where
  pub execute_open-IsSound :
      (c : String) (db : Db) → Sound py db → Sound py (execute_open py c db).1
  unfolding execute_open
  execute_open-IsSound c db h = elim (claim_and_task-cases c db) [
    | inl (e, p) ↦ rw p h
    | inr (claim, task, p, found) ↦ rw p (elim (Bool-cases (can_open task.state)) [
      | inr b ↦ rw b h
      | inl b ↦
          rw b (rw append-ok (append-IsSound py signs _ _ _ _ _ _ (later-IsSound py signs _ _ 1 h)))
    ])
  ]

  pub supervise-IsSound :
      (c reason urgency : String) (db : Db)
      → Sound py db
      → Sound py (supervise py c reason urgency db).1
  unfolding supervise
  supervise-IsSound c reason urgency db h = elim (claim_and_task-cases c db) [
    | inl (e, p) ↦ rw p h
    | inr (claim, task, p, found) ↦ rw p (elim (Result-cases (handed_over task.state)) [
      | inl (e, b) ↦ rw b h
      | inr (s, b) ↦ rw b (rw append-ok (append-IsSound py signs _ _ _ _ _ _ h))
    ])
  ]

  pub abort-IsSound :
      (c reason : String) (snapshot : Fields) (db : Db)
      → Sound py db
      → Sound py (abort py c reason snapshot db).1
  unfolding abort
  abort-IsSound c reason snapshot db h = elim (claim_and_task-cases c db) [
    | inl (e, p) ↦ rw p h
    | inr (claim, task, p, found) ↦ rw p (elim (Bool-cases (is_terminal task.state)) [
      | inl b ↦ rw b h
      | inr b ↦ rw b (rw append-ok (append-IsSound py signs _ _ _ _ _ _ h))
    ])
  ]

  pub beat-IsSound :
      (claim : WcpClaim) (kind at : String) (db : Db)
      → Sound py db
      → Sound py (beat py claim kind at db).1
  unfolding beat
  beat-IsSound claim kind at db h = elim (Bool-cases (kind == "heartbeat")) [
    | inr b ↦ rw b h
    | inl b ↦
        rw b (elim (Result-cases (instant_of py at)) [ inl (e, p) ↦ rw p h | inr (i, p) ↦ rw p h ])
  ]

  pub execute_event-IsSound :
      (r : Resolver) (c kind at : String) (payload : Fields) (sig : String) (db : Db)
      → Sound py db
      → Sound py (execute_event py r c kind at payload sig db).1
  unfolding execute_event
  execute_event-IsSound r c kind at payload sig db h = elim (claim_and_task-cases c db) [
    | inl (e, p) ↦ rw p h
    | inr (claim, task, p, found) ↦ rw p (elim (Bool-cases (is_executing task.state)) [
      | inr b ↦ rw b h
      | inl b ↦ rw b (elim (Result-cases (resolve_or_crash (r.resolve claim.worker_id))) [
        | inl (e, w) ↦ rw w h
        | inr (who, w) ↦
            rw w
              (elim (Bool-cases
                (r.check_sig who (py.dumps (obj (event_fields c kind at payload))) sig)) [
                  | inr g ↦ rw g h
                  | inl g ↦ rw g (elim (Result-cases (beat py claim kind at db).0) [
                    | inl (e, q) ↦ rw q (beat-IsSound claim kind at db h)
                    | inr (u, q) ↦
                        rw q (append-IsSound py signs _ _ _ _ _ _ (beat-IsSound claim kind at db h))
                  ])
                ])
      ])
    ])
  ]

  pub claim-IsSound :
      (r : Resolver) (t w eta : String) (a : Fields) (bid : Option String) (db : Db)
      → Sound py db
      → Sound py (claim py r t w eta a bid db).1
  unfolding claim
  claim-IsSound r t w eta a bid db h = elim (Result-cases (or_not_found (find_task t db.tasks))) [
    | inl (e, p) ↦ rw p h
    | inr (task, p) ↦ rw p (elim (Result-cases (claimable task.state)) [
      | inl (e, q) ↦ rw q h
      | inr (u, q) ↦ rw q (elim (Bool-cases (ltb task.expiry (py.now db.ticks))) [
        | inl b ↦ rw b (later-IsSound py signs _ _ 1 h)
        | inr b ↦ rw b (elim (Result-cases (or_unknown_worker (find_worker w db.workers))) [
          | inl (e, k) ↦ rw k (later-IsSound py signs _ _ 1 h)
          | inr (worker, k) ↦ rw k (elim (Result-cases (check_self_dealing task worker)) [
            | inl (e, s) ↦ rw s (later-IsSound py signs _ _ 1 h)
            | inr (v, s) ↦ rw s (elim (Result-cases (check_acceptance py r t w eta bid a)) [
              | inl (e, z) ↦ rw z (later-IsSound py signs _ _ 1 h)
              | inr (z', z) ↦ rw z (elim (Bool-cases (any (accepted_for t) db.claims)) [
                | inl b' ↦ rw b' (later-IsSound py signs _ _ 1 h)
                | inr b' ↦ rw b' (elim (Result-cases (instant_of py eta)) [
                  | inl (e, i) ↦ rw i (later-IsSound py signs _ _ 1 h)
                  | inr (at, i) ↦ rw i (
                      rw append-ok (
                        append-IsSound py signs _ _ _ _ _ _ (
                          later-IsSound py signs _ _ 1
                            (later-IsSound py signs _ _ 1 (later-IsSound py signs _ _ 1 h)))))
                ])
              ])
            ])
          ])
        ])
      ])
    ])
  ]
