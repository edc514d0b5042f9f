-- ===== src/Rpc/Codes.antt =====
-- The codes that leave the dispatcher against spec/error-codes.md.
use worker_context_protocol.Prelude.{
  String, ◌≡◌, refl, inl, inr, Bool, true, false, Option, none, some, List, [], ◌∷◌, any,
  if◌then◌else◌,
}
use text.Mathlib.Text.{starts_with}
use worker_context_protocol.Prelude.Int.{ℤ, eqb_ℤ}
use worker_context_protocol.Json.{Value, Fields}
use worker_context_protocol.Models.{Db}
use worker_context_protocol.Platform.{Platform}
use worker_context_protocol.Resolver.{Resolver}
use worker_context_protocol.Result.{Error, Result-cases}
use worker_context_protocol.Rpc.{minus, map_value_error, failure_of}
use worker_context_protocol.Rpc.Binding.{Bound}
use worker_context_protocol.Rpc.Dispatch.{
  dispatch, Answer, raised, returned, unmodelled, serve_bound, params_of, method_of, call_with,
  dispatch_entry,
}
use worker_context_protocol.Rpc.Serve.{serve}
use worker_context_protocol.Router.{code_of}
use worker_context_protocol.Verifier.Registry.{Registry}

-- The codes of spec/error-codes.md that a dispatch may answer with, `internal_error` included.
abbrev pub documented : List ℤ
documented =
    minus 32700
    ∷ minus 32600
    ∷ minus 32601
    ∷ minus 32602
    ∷ minus 32603
    ∷ minus 40001
    ∷ minus 40002
    ∷ minus 40003
    ∷ minus 41001
    ∷ minus 41002
    ∷ minus 41003
    ∷ minus 42001
    ∷ minus 42002
    ∷ minus 42003
    ∷ minus 42004
    ∷ minus 42010
    ∷ minus 43001
    ∷ minus 45001
    ∷ minus 45002
    ∷ minus 46001
    ∷ minus 47001
    ∷ minus 47002
    ∷ []

abbrev pub IsDocumented : ℤ → Type 0
IsDocumented code = any (eqb_ℤ code) documented ≡ true

if_IsDocumented :
    (c : Bool) (x y : ℤ) → IsDocumented x → IsDocumented y → IsDocumented (if c then x else y)
if_IsDocumented true x y p q = p
if_IsDocumented false x y p q = q

map_value_error-IsDocumented : (msg : String) → IsDocumented (map_value_error msg)
unfolding map_value_error
map_value_error-IsDocumented msg = if_IsDocumented (starts_with msg "DID_NOT_RESOLVED") _ _ refl (
    if_IsDocumented (starts_with msg "UNAUTHENTICATED") _ _ refl (
      if_IsDocumented (starts_with msg "UNAUTHORIZED") _ _ refl (
        if_IsDocumented (starts_with msg "INVALID_ATTESTATION_REQUIREMENT") _ _ refl (
          if_IsDocumented (starts_with msg "ATTESTATION_FAILED") _ _ refl (
            if_IsDocumented (starts_with msg "SUBCONTRACT_FORBIDDEN") _ _ refl (
              if_IsDocumented (starts_with msg "OUT_OF_SCOPE_TASK_CLASS") _ _ refl (
                if_IsDocumented (starts_with msg "POLICY_VIOLATION") _ _ refl (
                  if_IsDocumented (starts_with msg "INVALID_DESCRIPTOR") _ _ refl (
                    if_IsDocumented (starts_with msg "RECHECK_MAX_ATTEMPTS_REACHED") _ _ refl (
                      if_IsDocumented (starts_with msg "RECHECK_NOT_AVAILABLE_FOR_TASK") _ _ refl
                        refl))))))))))

failure_of-IsDocumented : (e : Error) → IsDocumented (code_of (failure_of e))
unfolding failure_of
failure_of-IsDocumented Error.task_not_found = refl
failure_of-IsDocumented Error.task_preempted = refl
failure_of-IsDocumented Error.task_state_invalid = refl
failure_of-IsDocumented Error.crash = refl
failure_of-IsDocumented Error.row_refused = refl
failure_of-IsDocumented (Error.value_error msg) = map_value_error-IsDocumented msg

-- the code of a failure is one of those of the document
unfoldable pub documented_answer : Answer → Bool
documented_answer (returned v) = true
documented_answer (raised f) = any (eqb_ℤ (code_of f)) documented
documented_answer unmodelled = true

serve_bound-documented_answer :
    (py : Platform) (r : Resolver) (reg : Registry) (b : Bound) (db : Db)
    → documented_answer (serve_bound py r reg b db).0 ≡ true
unfolding serve_bound documented_answer
serve_bound-documented_answer py r reg (Bound.call q) db =
    elim (Result-cases (serve py r reg q db).0) [
      | inl (e, p) ↦ rw p (failure_of-IsDocumented e)
      | inr (v, p) ↦ rw p refl
    ]
serve_bound-documented_answer py r reg Bound.type_error db = refl
serve_bound-documented_answer py r reg Bound.off_type db = refl

call_with-documented_answer :
    (py : Platform) (r : Resolver) (reg : Registry) (bind : Fields → Bound) (f : Option Fields)
    (db : Db)
    → documented_answer (call_with py r reg bind f db).0 ≡ true
unfolding call_with documented_answer
call_with-documented_answer py r reg bind none db = refl
call_with-documented_answer py r reg bind (some f) db =
    serve_bound-documented_answer py r reg (bind f) db

dispatch_entry-documented_answer :
    (py : Platform) (r : Resolver) (reg : Registry) (o : Option (Fields → Bound)) (params : Value)
    (db : Db)
    → documented_answer (dispatch_entry py r reg o params db).0 ≡ true
unfolding dispatch_entry documented_answer
dispatch_entry-documented_answer py r reg none params db = refl
dispatch_entry-documented_answer py r reg (some bind) params db =
    call_with-documented_answer py r reg bind (params_of params) db

-- Every error that `dispatch` ends with, for any method, parameters and state, has a code that
-- spec/error-codes.md lists.
pub dispatch-documented_answer :
    (py : Platform) (r : Resolver) (reg : Registry) (m : String) (params : Value) (db : Db)
    → documented_answer (dispatch py r reg m params db).0 ≡ true
unfolding dispatch
dispatch-documented_answer py r reg m params db =
    dispatch_entry-documented_answer py r reg (method_of m) params db
