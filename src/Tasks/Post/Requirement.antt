-- ===== src/Tasks/Post/Requirement.antt =====
-- The tests of tasks/post on the descriptor: `_validate_attestation_requirement` and the refusals
-- at the head of `post`.
use worker_context_protocol.Prelude.{
  ℕ, String, Bool, true, false, not, ◌||◌, none, some, List, [], ◌∷◌, contains, if◌then◌else◌,
}
use worker_context_protocol.Prelude.Int.{ℤ, pos, ltb_ℤ}
use worker_context_protocol.Json
use worker_context_protocol.Json.{
  Value, null, bool, int, str, arr, obj, Fields, end, field, get, get_or, has, put, of_list,
}
use worker_context_protocol.Json.Builtins.{
  or_else, as_dict, as_str, iterate, contains_text, is_int, is_text, is_some, truthy,
}
use worker_context_protocol.Platform.{Platform}
use worker_context_protocol.Resolver.{Resolver}
use worker_context_protocol.Result.{Result, ok, err, crash, value_error, raise_if, ◌>>=◌, ◌>>◌}
use worker_context_protocol.Verifier.Registry.{Registry, kinds_of}

-- `any(legacy in req)` over the three removed fields
unfoldable pub reject_legacy : List String → Value → Result (Unit {0})
reject_legacy [] req = ok tt
reject_legacy (k ∷ ks) req =
    let later = reject_legacy ks req in
    do
      present ← contains_text k req
      if present then err (value_error "INVALID_DESCRIPTOR: attestation_requirement.") else later

-- the value of a Python int, a bool included
abbrev pub int_value : Value → ℤ
int_value (int z) = z
int_value (bool true) = pos 1
int_value _ = pos 0

unfoldable pub validate_bounds : Value → Value → Result (Unit {0})
validate_bounds m n = do
  raise_if (not (is_int m) || not (is_int n))
      (value_error "INVALID_ATTESTATION_REQUIREMENT: M and N must be integers")
  raise_if (ltb_ℤ (int_value n) (int_value m))
      (value_error "INVALID_ATTESTATION_REQUIREMENT: M > N (")

-- `registry.get(mode, set())`
abbrev pub allowed_kinds : Registry → Value → Result (List String)
allowed_kinds registry (str m) = ok (kinds_of m registry)
allowed_kinds registry (arr xs) = err crash
allowed_kinds registry (obj f) = err crash
allowed_kinds registry _ = ok []

-- `k not in allowed`
abbrev pub kind_allowed : List String → Value → Result Bool
kind_allowed allowed (str k) = ok (contains allowed k)
kind_allowed allowed (arr xs) = err crash
kind_allowed allowed (obj f) = err crash
kind_allowed allowed _ = ok false

unfoldable pub validate_kinds : List String → List Value → Result (Unit {0})
validate_kinds allowed [] = ok tt
validate_kinds allowed (k ∷ ks) =
    let later = validate_kinds allowed ks in
    do
      known ← kind_allowed allowed k
      if known then later else err (value_error "INVALID_ATTESTATION_REQUIREMENT: kind ")

unfoldable pub validate_schema : Registry → List Value → Result (Unit {0})
unfolding validate_kinds
validate_schema registry [] = ok tt
validate_schema registry (entry ∷ entries) =
    let later = validate_schema registry entries in
    do
      e ← as_dict entry
      allowed ← allowed_kinds registry (get "mode" e)
      kinds ← iterate (or_else (get "kinds" e) (arr Json.nil))
      validate_kinds allowed kinds
      later

unfoldable pub validate_requirement : Registry → Value → Result (Unit {0})
unfolding validate_bounds
validate_requirement registry req = do
  raise_if (not (truthy req))
      (value_error "INVALID_ATTESTATION_REQUIREMENT: attestation_requirement missing")
  r ← as_dict req
  raise_if (not (truthy (get "modes" r)))
      (value_error "INVALID_ATTESTATION_REQUIREMENT: modes empty")
  let threshold = get "threshold" r
  raise_if (not (is_text "any" threshold || is_text "all" threshold || is_text "M-of-N" threshold))
      (value_error "INVALID_ATTESTATION_REQUIREMENT: unknown threshold ")
  (if is_text "M-of-N" threshold then validate_bounds (get "M" r) (get "N" r) else ok tt)
  entries ← iterate (or_else (get "evidence_schema" r) (arr Json.nil))
  validate_schema registry entries

abbrev out_of_scope : Value → Bool
out_of_scope d =
    is_text "medical" d
    || is_text "defense" d
    || is_text "minor_involving" d
    || is_text "hazmat_above_consumer" d

abbrev is_true : Value → Bool
is_true (bool true) = true
is_true _ = false

-- The tests of `post` up to the subcontracting rule.
unfoldable pub admit_task : Registry → Fields → Result (Unit {0})
unfolding reject_legacy validate_requirement
admit_task registry task = do
  raise_if (has "settlement" task) (
      value_error
        "INVALID_DESCRIPTOR: task.settlement removed at v0.955 (settlement is no longer a protocol concern)")
  let req = get_or "attestation_requirement" (obj end) task
  reject_legacy ("override_authority" ∷ "override_audit_required" ∷ "override_allowed" ∷ []) req
  validate_requirement registry req
  raise_if (out_of_scope (get_or "descriptor_type" (str "") task))
      (value_error "OUT_OF_SCOPE_TASK_CLASS: reference coordinator refuses descriptor_type=")
  raise_if (is_true (get "x-subcontract-allowed" task))
      (value_error "SUBCONTRACT_FORBIDDEN: x-subcontract-allowed=true not WCP-conformant at v0.1")

-- `task.get("posted_by")`, which must be there and resolve
unfoldable pub poster_of : Resolver → Fields → Result String
poster_of resolver task = do
  raise_if (not (truthy (get "posted_by" task)))
      (value_error "INVALID_PARAMS: task.posted_by required")
  posted_by ← as_str (get "posted_by" task)
  raise_if (not (is_some (resolver.resolve posted_by)))
      (value_error "DID_NOT_RESOLVED: posted_by: ")
  ok posted_by

-- `datetime.fromisoformat`
abbrev pub instant_of : Platform → String → Result ℕ
instant_of py s = elim (py.parse_iso s) [
  | none ↦ err (value_error "Invalid isoformat string: ")
  | some i ↦ ok i.micros
]
