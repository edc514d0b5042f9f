-- ===== src/Rpc/Binding.antt =====
-- `self._methods[method](**params)`: the keyword arguments of the eleven methods.
use worker_context_protocol.Prelude.{
  String, Bool, true, not, ◌&&◌, Option, none, some, List, [], ◌∷◌, ◌++◌, all, contains,
  if◌then◌else◌,
}
use worker_context_protocol.Prelude.Int.{ℤ, pos}
use worker_context_protocol.Json.{
  Value, null, int, str, obj, arr, Fields, end, field, get, has, items,
}
use worker_context_protocol.Requests.{Request}

-- A call with its arguments bound; a TypeError for a missing or an unexpected keyword; and an
-- argument of another type than its annotation, which Python lets through and the model does not
-- follow.
pub data Bound : Type 0 where
  call : Request → Bound
  type_error : Bound
  off_type : Bound

infixl 5 ◌>>=◌
abbrev ◌>>=◌ : {A B : Type 0} → Option A → (A → Option B) → Option B
o >>= f = elim o [ none ↦ none | some a ↦ f a ]

-- a text argument
abbrev text_arg : Value → Option String
text_arg (str s) = some s
text_arg _ = none

abbrev dict_arg : Value → Option Fields
dict_arg (obj f) = some f
dict_arg _ = none

abbrev int_arg : Value → Option ℤ
int_arg (int z) = some z
int_arg _ = none

-- an argument whose default is None
abbrev or_none : {A : Type 0} → (Value → Option A) → Value → Option (Option A)
or_none read null = some none
or_none read v = elim (read v) [ none ↦ none | some a ↦ some (some a) ]

-- `list[dict]`
abbrev pub dicts : List Value → Option (List Fields)
dicts [] = some []
dicts (v ∷ vs) = let rest = dicts vs in do f ← dict_arg v; fs ← rest; some (f ∷ fs)

abbrev dicts_arg : Value → Option (List Fields)
dicts_arg (arr xs) = dicts (items xs)
dicts_arg _ = none

abbrev all_keys : (String → Bool) → Fields → Bool
all_keys p end = true
all_keys p (field k v f) = p k && all_keys p f

-- Every required keyword is given, and nothing but the named ones.
unfoldable pub accepts : List String → List String → Fields → Bool
accepts required optional params =
    all (λ k. has k params) required && all_keys (contains (required ++ optional)) params

abbrev bound_of : Option Request → Bound
bound_of none = off_type
bound_of (some q) = call q

abbrev without : List String → Fields → Fields
without names end = end
without names (field k v f) =
    let rest = without names f in if contains names k then rest else field k v rest

unfoldable pub bind_capabilities_list : Fields → Bound
bind_capabilities_list params =
    if accepts ("worker_id" ∷ []) [] params
    then bound_of (do w ← text_arg (get "worker_id" params); some (Request.capabilities_list w))
    else type_error

unfoldable pub bind_capabilities_upsert : Fields → Bound
bind_capabilities_upsert params =
    if accepts ("worker_id" ∷ "capabilities" ∷ "principal_id" ∷ []) ("ttl_seconds" ∷ []) params
    then bound_of (do
      w ← text_arg (get "worker_id" params)
      c ← dict_arg (get "capabilities" params)
      p ← text_arg (get "principal_id" params)
      ttl ←
          (if has "ttl_seconds" params then int_arg (get "ttl_seconds" params) else some (pos 3600))
      some (Request.capabilities_upsert w c p ttl))
    else type_error

unfoldable pub bind_audit_observe : Fields → Bound
bind_audit_observe params =
    if has "self" params
    then type_error
    else bound_of (do
      c ← or_none text_arg (get "claim_id" params)
      t ← or_none text_arg (get "task_id" params)
      some (Request.audit_observe c t))

unfoldable pub bind_capabilities_subscribe : Fields → Bound
bind_capabilities_subscribe params =
    if accepts ("agent_did" ∷ []) ("filter" ∷ "since_revision" ∷ []) params
    then bound_of (do
      a ← text_arg (get "agent_did" params)
      f ← or_none dict_arg (get "filter" params)
      s ← or_none int_arg (get "since_revision" params)
      some (Request.capabilities_subscribe a f s))
    else type_error

-- The extra keywords, but `self`, are the informational siblings; `supervision` is read by nothing.
unfoldable pub bind_tasks_post : Fields → Bound
bind_tasks_post params =
    if has "task" params && has "expiry" params && not (has "self" params)
    then bound_of (do
      t ← dict_arg (get "task" params)
      e ← text_arg (get "expiry" params)
      some (Request.tasks_post t e (without ("task" ∷ "expiry" ∷ "supervision" ∷ []) params)))
    else type_error

unfoldable pub bind_tasks_claim : Fields → Bound
bind_tasks_claim params =
    if accepts ("task_id" ∷ "worker_id" ∷ "eta" ∷ "acceptance_attestation" ∷ []) ("bid" ∷ []) params
    then bound_of (do
      t ← text_arg (get "task_id" params)
      w ← text_arg (get "worker_id" params)
      e ← text_arg (get "eta" params)
      a ← dict_arg (get "acceptance_attestation" params)
      b ← or_none text_arg (get "bid" params)
      some (Request.tasks_claim t w e a b))
    else type_error

unfoldable pub bind_tasks_execute : Fields → Bound
bind_tasks_execute params =
    if accepts ("claim_id" ∷ []) [] params
    then bound_of (do c ← text_arg (get "claim_id" params); some (Request.tasks_execute c))
    else type_error

unfoldable pub bind_tasks_execute_event : Fields → Bound
bind_tasks_execute_event params =
    if accepts ("claim_id" ∷ "event_type" ∷ "timestamp" ∷ "payload" ∷ "sig" ∷ []) [] params
    then bound_of (do
      c ← text_arg (get "claim_id" params)
      k ← text_arg (get "event_type" params)
      at ← text_arg (get "timestamp" params)
      p ← dict_arg (get "payload" params)
      s ← text_arg (get "sig" params)
      some (Request.tasks_execute_event c k at p s))
    else type_error

unfoldable pub bind_tasks_attest : Fields → Bound
bind_tasks_attest params =
    if accepts ("claim_id" ∷ "attestations" ∷ []) ("compensating_action" ∷ []) params
    then bound_of (do
      c ← text_arg (get "claim_id" params)
      evs ← dicts_arg (get "attestations" params)
      some (Request.tasks_attest c evs))
    else type_error

unfoldable pub bind_tasks_supervise : Fields → Bound
bind_tasks_supervise params =
    if accepts ("claim_id" ∷ "handoff_reason" ∷ "state_snapshot" ∷ "urgency" ∷ []) [] params
    then bound_of (do
      c ← text_arg (get "claim_id" params)
      h ← text_arg (get "handoff_reason" params)
      u ← text_arg (get "urgency" params)
      some (Request.tasks_supervise c h u))
    else type_error

-- `state_snapshot or {}`, which the service takes, is bound here.
abbrev snapshot_or_empty : Option Fields → Fields
snapshot_or_empty none = end
snapshot_or_empty (some f) = f

unfoldable pub bind_tasks_abort : Fields → Bound
bind_tasks_abort params =
    if accepts ("claim_id" ∷ "reason" ∷ []) ("state_snapshot" ∷ []) params
    then bound_of (do
      c ← text_arg (get "claim_id" params)
      why ← text_arg (get "reason" params)
      s ← or_none dict_arg (get "state_snapshot" params)
      some (Request.tasks_abort c why (snapshot_or_empty s)))
    else type_error
