-- ===== src/Sdk/Accepted.antt =====
-- The calls of the SDK that the coordinator accepts.
use text.Mathlib.TextEquality.{eq_iff}
use worker_context_protocol.Prelude.{
  ℕ, String, ◌≡◌, ◌≢◌, refl, ap, ◌∙◌, inl, inr, true, false, Option, some, ◌==◌, any, ltb,
  Bool-cases,
}
use worker_context_protocol.Json.{Fields, Value, obj, str, bool, field, end}
use worker_context_protocol.Json.Builtins.{truthy}
use worker_context_protocol.Models.{
  Db, TaskState, WcpTask, WcpWorker, WcpClaim, posted, claimed, executing,
}
use worker_context_protocol.Platform.{Platform}
use worker_context_protocol.Result.{ok}
use worker_context_protocol.Audit.{append}
use worker_context_protocol.Did.Resolve.{Keys, did_resolver, join, resolve}
use worker_context_protocol.Federation.Interop.{Digests}
use worker_context_protocol.History.Steps.{append-ok}
use worker_context_protocol.Lifecycle.Exclusive.{find_task-claimed}
use worker_context_protocol.Requests.{Request}
use worker_context_protocol.Rpc.Binding.{Bound}
use worker_context_protocol.Rpc.Dispatch.{
  dispatch, dispatch_entry, call_with, serve_bound, method_of, returned,
}
use worker_context_protocol.Rpc.Serve.{serve, reply, claim_dict}
use worker_context_protocol.Sdk.Bindings.{claim_binds, event_binds}
use worker_context_protocol.Sdk.Calls.{
  claim_call, claim_hash, claim_canonical, acceptance_of, event_call, event_canonical,
}
use worker_context_protocol.Sdk.Identity.{Keypair, Identity, identity_from_key, sign}
use worker_context_protocol.Sdk.Signatures.{
  IsMatching, identity-resolves, identity_signature_holds, identity_check,
}
use worker_context_protocol.Tables.{find_task, find_worker, find_claim}
use worker_context_protocol.Tasks.Common.{claim_and_task}
use worker_context_protocol.Tasks.Execute.{execute_event, beat, is_executing}
use worker_context_protocol.Tasks.Claim.{claim, accepted_for}
use worker_context_protocol.Tasks.Claim.Checks.{claimable, check_self_dealing, check_acceptance}
use worker_context_protocol.Tasks.Post.Requirement.{instant_of}
use worker_context_protocol.Verifier.Registry.{Registry}

-- A task that is posted, not expired, and not taken, and a registered worker that may take it.
pub record IsOnOffer (py : Platform) (task_id worker_id : String) (task : WcpTask) (db : Db)
    : Type 0 where
  pub found : find_task task_id db.tasks ≡ some task
  pub waiting : task.state ≡ posted
  pub in_time : ltb task.expiry (py.now db.ticks) ≡ false
  pub worker : WcpWorker
  pub registered : find_worker worker_id db.workers ≡ some worker
  pub fair : check_self_dealing task worker ≡ ok tt
  pub untaken : any (accepted_for task_id) db.claims ≡ false

named-truthy : (s : String) → s ≢ "" → truthy (str s) ≡ true
named-truthy s h = elim (Bool-cases (s == "")) [
  | inl b ↦ absurd (h ((eq_iff s "").0 b))
  | inr b ↦ rw b refl
]

sign-named : (py : Platform) (me : Identity) (v : Value) → sign py me v ≢ ""
unfolding sign join
sign-named py me v h = cc h

append-tasks :
    (py : Platform) (event actor : String) (payload : Fields) (c t : Option String) (db : Db)
    → (append py event actor payload c t db).1.tasks ≡ db.tasks
unfolding append
append-tasks py event actor payload c t db = refl

claimable-posted : (s : TaskState) → s ≡ posted → claimable s ≡ ok tt
unfolding claimable
claimable-posted s h = rw h refl

module _ (py : Platform) (key : Keypair) (keys : Keys) (me : Identity) (m : IsMatching key keys)
    (made : identity_from_key key ≡ some me) (digests : Digests py) where
  acceptance_ok :
      (t eta : String) (bid : Option String) (now : String)
      → now ≢ ""
      → check_acceptance py (did_resolver keys) t me.did eta bid (acceptance_of py me t eta bid now)
        ≡ ok tt
  unfolding check_acceptance
  acceptance_ok t eta bid now clock =
      rw (named-truthy _ (sign-named py me (obj (claim_canonical py me t eta bid now)))) (
        rw (named-truthy (claim_hash py t) (digests _)) (
          rw (named-truthy now clock) (
            rw (identity-resolves key keys me m made)
              (rw (identity_signature_holds py key keys me _ m made) refl))))

  claim_ok :
      (t eta : String) (bid : Option String) (now : String) (at : ℕ) (task : WcpTask) (db : Db)
      → now ≢ ""
      → instant_of py eta ≡ ok at
      → IsOnOffer py t me.did task db
      → let after =
          claim py (did_resolver keys) t me.did eta (acceptance_of py me t eta bid now) bid db in
        (after.0 ≡ ok (record { claim_id = py.uuid4 db.uuids; accepted = true }))
        × (find_task t after.1.tasks ≡ some (record task { state = claimed }))
  unfolding claim
  claim_ok t eta bid now at task db clock parses offer = rw offer.found (
      rw (claimable-posted task.state offer.waiting) (
        rw offer.in_time (
          rw offer.registered (
            rw offer.fair (
              rw (acceptance_ok t eta bid now clock) (
                rw offer.untaken (
                  rw parses (
                    rw append-ok (
                      refl,
                      rw append-tasks (find_task-claimed t task db.tasks offer.found),
                    )))))))))

  claim_dispatched :
      (reg : Registry) (t eta : String) (bid : Option String) (now : String) (db : Db)
      → dispatch py
          (did_resolver keys)
          reg
          (claim_call py me t eta bid now).method
          (obj (claim_call py me t eta bid now).params)
          db
        ≡ serve_bound py
            (did_resolver keys)
            reg
            (Bound.call (Request.tasks_claim t me.did eta (acceptance_of py me t eta bid now) bid))
            db
  unfolding dispatch dispatch_entry method_of call_with claim_call
  claim_dispatched reg t eta bid now db =
      ap (λ b. serve_bound py (did_resolver keys) reg b db) (claim_binds py me t eta bid now)

  -- Where the cryptography and base 64 match the worker's keys and no digest is the empty text: the
  -- SDK's call of tasks/claim, dispatched at a coordinator where the task is on offer to the worker,
  -- the ETA parses and the clock's text is not empty, returns an accepted claim with a fresh
  -- identifier, and the task is then stored as claimed.
  pub claim_accepted :
      (reg : Registry) (t eta : String) (bid : Option String) (now : String) (at : ℕ)
      (task : WcpTask) (db : Db)
      → now ≢ ""
      → instant_of py eta ≡ ok at
      → IsOnOffer py t me.did task db
      → ((dispatch py
            (did_resolver keys)
            reg
            (claim_call py me t eta bid now).method
            (obj (claim_call py me t eta bid now).params)
            db).0
          ≡ returned (claim_dict (record { claim_id = py.uuid4 db.uuids; accepted = true })))
        × (find_task t
              (dispatch py
                (did_resolver keys)
                reg
                (claim_call py me t eta bid now).method
                (obj (claim_call py me t eta bid now).params)
                db).1.tasks
            ≡ some (record task { state = claimed }))
  unfolding serve_bound serve reply
  claim_accepted reg t eta bid now at task db clock parses offer =
      let (answered, stored) = claim_ok t eta bid now at task db clock parses offer in
      rw (claim_dispatched reg t eta bid now db) (rw answered (refl, stored))

  beat-ok :
      (row : WcpClaim) (kind now : String) (at : ℕ) (db : Db)
      → instant_of py now ≡ ok at
      → (beat py row kind now db).0 ≡ ok tt
  unfolding beat
  beat-ok row kind now at db parses = elim (Bool-cases (kind == "heartbeat")) [
    | inl b ↦ rw b (rw parses refl)
    | inr b ↦ rw b refl
  ]

  executing-ok : (s : TaskState) → s ≡ executing → is_executing s ≡ true
  unfolding is_executing
  executing-ok s h = rw h refl

  event_ok :
      (c kind : String) (payload : Fields) (now : String) (at : ℕ) (db : Db) (row : WcpClaim)
      (task : WcpTask)
      → find_claim c db.claims ≡ some row
      → row.worker_id ≡ me.did
      → find_task row.task_id db.tasks ≡ some task
      → task.state ≡ executing
      → instant_of py now ≡ ok at
      → (execute_event py
          (did_resolver keys)
          c
          kind
          now
          payload
          (sign py me (obj (event_canonical c kind payload now)))
          db).0
        ≡ ok tt
  unfolding execute_event claim_and_task
  event_ok c kind payload now at db row task held mine found running parses = rw held (
      rw found (
        rw (executing-ok task.state running) (
          rw (ap resolve mine ∙ identity-resolves key keys me m made) (
            rw (identity_check py key keys me (event_canonical c kind payload now) m made)
              (rw (beat-ok row kind now at db parses) (rw append-ok refl))))))

  event_dispatched :
      (reg : Registry) (c kind : String) (payload : Fields) (now : String) (db : Db)
      → dispatch py
          (did_resolver keys)
          reg
          (event_call py me c kind payload now).method
          (obj (event_call py me c kind payload now).params)
          db
        ≡ serve_bound py
            (did_resolver keys)
            reg
            (Bound.call (
              Request.tasks_execute_event c kind now payload
                (sign py me (obj (event_canonical c kind payload now)))))
            db
  unfolding dispatch dispatch_entry method_of call_with event_call
  event_dispatched reg c kind payload now db =
      ap (λ b. serve_bound py (did_resolver keys) reg b db) (event_binds py me c kind payload now)

  -- Under the same conditions on the keys: the SDK's call of tasks/execute.event, for a claim of the
  -- worker whose task is executing and with a time that parses, is accepted.
  pub event_accepted :
      (reg : Registry) (c kind : String) (payload : Fields) (now : String) (at : ℕ) (db : Db)
      (row : WcpClaim) (task : WcpTask)
      → find_claim c db.claims ≡ some row
      → row.worker_id ≡ me.did
      → find_task row.task_id db.tasks ≡ some task
      → task.state ≡ executing
      → instant_of py now ≡ ok at
      → (dispatch py
          (did_resolver keys)
          reg
          (event_call py me c kind payload now).method
          (obj (event_call py me c kind payload now).params)
          db).0
        ≡ returned (obj (field "accepted" (bool true) end))
  unfolding serve_bound serve reply
  event_accepted reg c kind payload now at db row task held mine found running parses =
      rw (event_dispatched reg c kind payload now db)
        (rw (event_ok c kind payload now at db row task held mine found running parses) refl)
