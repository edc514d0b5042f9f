-- ===== src/Router.antt =====
-- wcp_coordinator/router.py: the two transports and their transactions, and the federation endpoint.
-- A response carries the code of its error; its message and the HTTP status are left out.
pub mod Export
pub mod Transactions
pub mod Traffic
use worker_context_protocol.Prelude.{
  String, Bool, true, false, not, ◌||◌, Option, none, some, List, [], ◌∷◌, if◌then◌else◌,
}
use worker_context_protocol.Prelude.Int.{ℤ}
use worker_context_protocol.Json.{Value, null, bool, str, int, float, obj, arr, Fields, end, get}
use worker_context_protocol.Json.Builtins.{is_text, or_else}
use worker_context_protocol.Models.{Db}
use worker_context_protocol.Platform.{Platform}
use worker_context_protocol.Resolver.{Resolver}
use worker_context_protocol.Rpc.{
  Failure, rpc_error, internal, internal_error, invalid_request, parse_error, method_not_found,
}
use worker_context_protocol.Rpc.Dispatch.{dispatch, Answer, returned, raised, unmodelled}
use worker_context_protocol.Verifier.Registry.{Registry}

-- a JSON-RPC response: the request's id, and a result or the code of an error
pub data Response : Type 0 where
  result : Value → Value → Response
  error : Value → ℤ → Response
  unmodelled_response : Response

abbrev pub code_of : Failure → ℤ
code_of (rpc_error code) = code
code_of internal = internal_error

abbrev pub response_of : Value → Answer → Response
response_of id (returned v) = result id v
response_of id (raised f) = error id (code_of f)
response_of id unmodelled = unmodelled_response

-- `db.rollback()`: the rows of the session's start. The clock and uuid4 do not go back.
abbrev pub rollback : Db → Db → Db
rollback before after = record before { ticks = after.ticks; uuids = after.uuids }

-- a method that is no text: the envelope test of the HTTP route refuses it
abbrev pub method_text : Value → Option String
method_text (str m) = some m
method_text _ = none

-- `rpc`: every exception of the dispatch is caught in the route, so `_get_session` always commits.
unfoldable pub http_rpc : Platform → Resolver → Registry → Fields → Db → Response × Db
http_rpc py r reg payload db =
    let id = get "id" payload in
    if not (is_text "2.0" (get "jsonrpc" payload))
    then (error id invalid_request, db)
    else elim (method_text (get "method" payload)) [
      | none ↦ (error id invalid_request, db)
      | some m ↦
          let (answer, db') = dispatch py r reg m (or_else (get "params" payload) (obj end)) db in
          (response_of id answer, db')
    ]

-- commit after a result, rollback after an exception
abbrev pub settle : Db → Answer → Db → Db
settle before (returned v) after = after
settle before (raised f) after = rollback before after
settle before unmodelled after = after

-- a method that is looked up in the dict: what is no text is not found, or not hashable
abbrev pub ws_other : Value → Answer
ws_other (arr xs) = raised internal
ws_other (obj f) = raised internal
ws_other _ = raised (rpc_error method_not_found)

-- One message of `ws`: the session is the message's own.
unfoldable pub ws_request : Platform → Resolver → Registry → Fields → Db → Response × Db
ws_request py r reg req db =
    let id = get "id" req in
    elim (method_text (get "method" req)) [
      | none ↦ (response_of id (ws_other (get "method" req)), db)
      | some m ↦
          let (answer, db') = dispatch py r reg m (or_else (get "params" req) (obj end)) db in
          (response_of id answer, settle db answer db')
    ]

-- What a received text decodes to: none for a JSONDecodeError. What is no dict ends the connection.
unfoldable pub ws_message :
    Platform → Resolver → Registry → Option Value → Db → Option Response × Db
ws_message py r reg none db = (some (error null parse_error), db)
ws_message py r reg (some (obj req)) db =
    let (response, db') = ws_request py r reg req db in (some response, db')
ws_message py r reg (some _) db = (none, db)
