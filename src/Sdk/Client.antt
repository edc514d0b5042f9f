-- ===== src/Sdk/Client.antt =====
-- wcp_sdk_python/wcp_sdk/rpc_client.py: the calls in flight and the loop that reads the responses.
-- The socket, the reconnects and the stream handler's body are left out.
pub mod Settling
pub mod Lasting
use worker_context_protocol.Prelude.{
  ℕ, ◌+◌, String, Bool, true, false, not, ◌&&◌, ◌||◌, Option, none, some, List, [], ◌∷◌, nat_beq,
  any, if◌then◌else◌,
}
use worker_context_protocol.Prelude.Int.{ℤ, pos, negsuc}
use worker_context_protocol.Json.{
  Value, null, str, int, bool, obj, Fields, end, field, get, get_or, has,
}
use worker_context_protocol.Json.Builtins.{truthy}
use worker_context_protocol.Platform.{Platform}
use worker_context_protocol.Result.{Result, ok, err}
use worker_context_protocol.Rpc.{internal_error}
use worker_context_protocol.Verifier.Threshold.{int_of}

-- WcpRpcError; `details` is its `data`
pub record WcpRpcError : Type 0 where
  pub code : Value
  pub message : Value
  pub details : Value

-- `is_retryable`
unfoldable pub is_retryable : Value → Bool
is_retryable (obj f) = elim (get "retry" f) [
  | obj retry ↦ truthy (get_or "retryable" (bool false) retry)
  | _ ↦ false
]
is_retryable _ = false

-- what a future holds once it is done
pub data Settled : Type 0 where
  fulfilled : Value → Settled
  rejected : WcpRpcError → Settled

-- The counter, the pending futures by the request's id, the futures that are done, and whether the
-- reader is still in its loop.
pub record Client : Type 0 where
  pub next_id : ℕ
  pub pending : List ℕ
  pub settled : List (ℕ × Settled)
  pub reading : Bool

-- `__init__`, with a socket connected
abbrev pub new_client : Client
new_client = record { next_id = 1; pending = []; settled = []; reading = true }

-- `params or {}`
abbrev params_or_empty : Option Fields → Fields
params_or_empty none = end
params_or_empty (some f) = f

-- `call`, up to the wait: the message, and the future that is pending
unfoldable pub call : String → Option Fields → Client → Fields × Client
call method params c = (
  field "jsonrpc" (str "2.0") (
      field "id" (int (pos c.next_id))
        (field "method" (str method) (field "params" (obj (params_or_empty params)) end))),
  record c { next_id = c.next_id + 1; pending = c.next_id ∷ c.pending },
)

-- the loop of the reader ends with an exception that nothing handles
abbrev pub stopped : Client → Client
stopped c = record c { reading = false }

abbrev pub is_pending : ℕ → List ℕ → Bool
is_pending n ns = any (nat_beq n) ns

-- `self._pending.pop(n, None)`, what is left
unfoldable pub forget : ℕ → List ℕ → List ℕ
forget n [] = []
forget n (m ∷ ms) = let rest = forget n ms in if nat_beq n m then ms else m ∷ rest

abbrev rpc_error : Fields → WcpRpcError
rpc_error e = record {
  code = get_or "code" (int internal_error) e;
  message = get_or "message" (str "") e;
  details = get "data" e;
}

-- What a response settles its future with, none for an `error` that is no dict.
unfoldable pub outcome_of : Fields → Option Settled
outcome_of response =
    if not (has "error" response)
    then some (fulfilled (get "result" response))
    else elim (get "error" response) [ obj e ↦ some (rejected (rpc_error e)) | _ ↦ none ]

-- a response for a pending future
unfoldable pub settle : ℕ → Fields → Client → Client
settle n response c = elim (outcome_of response) [
  | none ↦ stopped (record c { pending = forget n c.pending })
  | some outcome ↦ record c { pending = forget n c.pending; settled = (n, outcome) ∷ c.settled }
]

-- the response to the request of an id that `int` has read
unfoldable pub answer : Result ℤ → Fields → Client → Client
answer (err e) response c = stopped c
answer (ok (negsuc n)) response c = c
answer (ok (pos n)) response c = if is_pending n c.pending then settle n response c else c

abbrev pub is_null : Value → Bool
is_null null = true
is_null _ = false

-- a dict that is no event of a stream
unfoldable pub on_response : Platform → Fields → Client → Client
on_response py response c =
    if is_null (get "id" response) then c else answer (int_of py (get "id" response)) response c

-- One round of `_reader_loop`: none is a text that is no JSON, and what is no dict has no `get`.
unfoldable pub receive : Platform → Option Value → Client → Client
receive py none c = c
receive py (some (obj response)) c =
    if has "event_type" response then c else on_response py response c
receive py (some _) c = stopped c

-- A call by the session, or a text that arrives.
pub data Event : Type 0 where
  called : String → Option Fields → Event
  arrived : Option Value → Event

-- What arrives after the loop has ended is not read.
unfoldable pub arrive : Platform → Bool → Option Value → Client → Client
arrive py true raw c = receive py raw c
arrive py false raw c = c

unfoldable pub handle : Platform → Event → Client → Client
handle py (called method params) c = (call method params c).1
handle py (arrived raw) c = arrive py c.reading raw c

unfoldable pub handle_all : Platform → List Event → Client → Client
handle_all py [] c = c
handle_all py (e ∷ es) c = handle_all py es (handle py e c)
