-- ===== src/Router/Transactions.antt =====
-- The two transports against each other and against the session: rollback, commit and replies.
use worker_context_protocol.Prelude.{
  String, ◌≡◌, refl, inl, inr, Bool, true, false, some, any, Option-cases, Bool-cases,
}
use worker_context_protocol.Prelude.Int.{eqb_ℤ}
use worker_context_protocol.Json.{Value, Fields, get, obj, end}
use worker_context_protocol.Json.Builtins.{is_text, or_else}
use worker_context_protocol.Models.{Db}
use worker_context_protocol.Platform.{Platform}
use worker_context_protocol.Resolver.{Resolver}
use worker_context_protocol.Rpc.Codes.{documented, documented_answer, dispatch-documented_answer}
use worker_context_protocol.Rpc.Dispatch.{dispatch, Answer, returned, raised, unmodelled}
use worker_context_protocol.Router.{
  Response, response_of, settle, method_text, ws_other, http_rpc, ws_request,
}
use worker_context_protocol.Verifier.Registry.{Registry}

-- Every table holds the same rows in the same order.
pub record SameRows (before after : Db) : Type 0 where
  pub workers : after.workers ≡ before.workers
  pub tasks : after.tasks ≡ before.tasks
  pub claims : after.claims ≡ before.claims
  pub sessions : after.sessions ≡ before.sessions
  pub attestations : after.attestations ≡ before.attestations
  pub audit : after.audit ≡ before.audit
  pub subscriptions : after.subscriptions ≡ before.subscriptions

SameRows-refl : (db : Db) → SameRows db db
SameRows-refl db = record {
  workers = refl;
  tasks = refl;
  claims = refl;
  sessions = refl;
  attestations = refl;
  audit = refl;
  subscriptions = refl;
}

abbrev pub is_error : Response → Bool
is_error (Response.error id code) = true
is_error _ = false

settle-SameRows :
    (id : Value) (a : Answer) (before after : Db)
    → is_error (response_of id a) ≡ true
    → SameRows before (settle before a after)
settle-SameRows id (returned v) before after h = absurd (cc h)
settle-SameRows id (raised f) before after h = record {
  workers = refl;
  tasks = refl;
  claims = refl;
  sessions = refl;
  attestations = refl;
  audit = refl;
  subscriptions = refl;
}
settle-SameRows id unmodelled before after h = absurd (cc h)

-- A message over the WebSocket that is answered with an error leaves every table as it was,
-- whatever the call had written before it failed.
pub ws_request_atomic :
    (py : Platform) (r : Resolver) (reg : Registry) (req : Fields) (db : Db)
    → is_error (ws_request py r reg req db).0 ≡ true
    → SameRows db (ws_request py r reg req db).1
unfolding ws_request
ws_request_atomic py r reg req db h = elim (Option-cases (method_text (get "method" req))) [
  | inl p ↦ rw (p, ws_request) (SameRows-refl db)
  | inr (m, p) ↦
      let h' = rw (p, ws_request) at h in
      rw (p, ws_request)
        (settle-SameRows _ (dispatch py r reg m (or_else (get "params" req) (obj end)) db).0 db _
          h')
]

settle-eq-after :
    (id : Value) (a : Answer) (before after : Db)
    → is_error (response_of id a) ≡ false
    → settle before a after ≡ after
settle-eq-after id (returned v) before after h = refl
settle-eq-after id (raised f) before after h = absurd (cc h)
settle-eq-after id unmodelled before after h = refl

-- A request with the "2.0" envelope and a textual method that succeeds over the WebSocket is answered
-- over HTTP with the same response, and leaves the same rows.
pub transports_commit_alike :
    (py : Platform) (r : Resolver) (reg : Registry) (req : Fields) (m : String) (db : Db)
    → is_text "2.0" (get "jsonrpc" req) ≡ true
    → method_text (get "method" req) ≡ some m
    → is_error (ws_request py r reg req db).0 ≡ false
    → http_rpc py r reg req db ≡ ws_request py r reg req db
unfolding http_rpc ws_request
transports_commit_alike py r reg req m db v t h =
    let h' = rw (t, ws_request) at h in
    rw v (
      rw (t, ws_request)
        (rw
          (settle-eq-after (get "id" req)
            (dispatch py r reg m (or_else (get "params" req) (obj end)) db).0 db
            (dispatch py r reg m (or_else (get "params" req) (obj end)) db).1 h')
          refl))

-- an error response carries a code of spec/error-codes.md
unfoldable pub documented_response : Response → Bool
documented_response (Response.error id code) = any (eqb_ℤ code) documented
documented_response _ = true

response_of-documented :
    (id : Value) (a : Answer)
    → documented_answer a ≡ true
    → documented_response (response_of id a) ≡ true
unfolding documented_answer documented_response
response_of-documented id (returned v) h = refl
response_of-documented id (raised f) h = h
response_of-documented id unmodelled h = refl

ws_other-documented : (v : Value) → documented_answer (ws_other v) ≡ true
unfolding documented_answer
ws_other-documented (Value.null) = refl
ws_other-documented (Value.bool b) = refl
ws_other-documented (Value.str s) = refl
ws_other-documented (Value.int z) = refl
ws_other-documented (Value.float m e) = refl
ws_other-documented (Value.obj f) = refl
ws_other-documented (Value.arr xs) = refl

module _ (py : Platform) (r : Resolver) (reg : Registry) (req : Fields) (db : Db) where
  http_documented : documented_response (http_rpc py r reg req db).0 ≡ true
  unfolding http_rpc documented_response
  http_documented = elim (Bool-cases (is_text "2.0" (get "jsonrpc" req))) [
    | inr v ↦ rw v refl
    | inl v ↦ elim (Option-cases (method_text (get "method" req))) [
      | inl p ↦ rw v (rw p refl)
      | inr (m, p) ↦
          rw v (rw p (response_of-documented _ _ (dispatch-documented_answer py r reg m _ db)))
    ]
  ]

  ws_documented : documented_response (ws_request py r reg req db).0 ≡ true
  unfolding ws_request
  ws_documented = elim (Option-cases (method_text (get "method" req))) [
    | inl p ↦
        rw (p, ws_request) (response_of-documented _ _ (ws_other-documented (get "method" req)))
    | inr (m, p) ↦
        rw (p, ws_request) (response_of-documented _ _ (dispatch-documented_answer py r reg m _ db))
  ]

  -- Every error response of either transport, for any request and state, carries a code that
  -- spec/error-codes.md lists.
  pub replies_documented :
      (documented_response (http_rpc py r reg req db).0 ≡ true)
      × (documented_response (ws_request py r reg req db).0 ≡ true)
  replies_documented = (http_documented, ws_documented)
