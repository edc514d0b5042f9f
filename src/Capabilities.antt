-- ===== src/Capabilities.antt =====
-- wcp_coordinator/capabilities_service.py: worker registration and the structural matcher.
pub mod Matching
pub mod Invariance
pub mod Registration
use worker_context_protocol.Prelude.{
  ℕ, ◌+◌, String, Bool, true, false, not, ◌||◌, Option, none, some, List, [], ◌∷◌, ◌++◌,
  if◌then◌else◌,
}
use worker_context_protocol.Prelude.Int.{ℤ, pos}
use worker_context_protocol.Json.{Value, Fields, get, str}
use worker_context_protocol.Json.Builtins.{is_text, is_some}
use worker_context_protocol.Models.{WorkerClass, WcpWorker, WcpSubscription, Db, worker_class_of}
use worker_context_protocol.Platform.{Platform}
use worker_context_protocol.Resolver.{Resolver}
use worker_context_protocol.Result.{Result, ok, err, value_error}
use worker_context_protocol.Exec.{
  Exec, pure, raise, raise_if, gets, modify, utcnow, uuid, ◌>>=◌, ◌>>◌,
}
use worker_context_protocol.Tables.{find_worker, save_worker}

-- the dict that `upsert_capabilities` and `list_capabilities` return
pub record CapabilityReply : Type 0 where
  pub worker_id : String
  pub capabilities : Fields
  pub ttl_seconds : ℤ
  pub revision : ℕ

-- `WorkerClass(capabilities.get("class"))`
abbrev pub class_of : Value → Option WorkerClass
class_of (str s) = worker_class_of s
class_of _ = none

-- the branch on the row that is there already
unfoldable pub write_worker :
    Platform → String → Fields → String → ℤ → WorkerClass → Option WcpWorker → Exec ℕ
write_worker py worker_id capabilities principal_id ttl worker_class none = do
  as_of ← utcnow py
  created_at ← utcnow py
  modify (λ db. record db {
    workers =
        db.workers
        ++ record {
          worker_id = worker_id;
          principal_id = principal_id;
          worker_class = worker_class;
          capabilities_json = capabilities;
          revision = 1;
          ttl_seconds = ttl;
          as_of = as_of;
          created_at = created_at;
        }
          ∷ [];
  })
  pure 1
write_worker py worker_id capabilities principal_id ttl worker_class (some existing) = do
  as_of ← utcnow py
  modify (λ db. record db {
    workers =
        save_worker
          (record existing {
            capabilities_json = capabilities;
            principal_id = principal_id;
            worker_class = worker_class;
            ttl_seconds = ttl;
            revision = existing.revision + 1;
            as_of = as_of;
          })
          db.workers;
  })
  pure (existing.revision + 1)

unfoldable pub upsert_capabilities :
    Platform → Resolver → String → Fields → String → ℤ → Exec CapabilityReply
unfolding write_worker
upsert_capabilities py resolver worker_id capabilities principal_id ttl = do
  raise_if (not (is_some (resolver.resolve worker_id))) (value_error "DID_NOT_RESOLVED: ")
  raise_if
      (not (
        is_text "wcp/0.1" (get "schema_version" capabilities)
        || is_text "wcp/0.2" (get "schema_version" capabilities)))
      (value_error "INVALID_PARAMS: capabilities.schema_version must be wcp/0.1 or wcp/0.2")
  elim (class_of (get "class" capabilities)) [
    | none ↦ raise (value_error "INVALID_PARAMS: invalid worker class ")
    | some worker_class ↦ do
      existing ← gets (λ db. find_worker worker_id db.workers)
      revision ← write_worker py worker_id capabilities principal_id ttl worker_class existing
      pure (record {
        worker_id = worker_id;
        capabilities = capabilities;
        ttl_seconds = ttl;
        revision = revision;
      })
  ]

abbrev pub reply_of : Option WcpWorker → Result CapabilityReply
reply_of none = err (value_error "DID_NOT_RESOLVED: worker ")
reply_of (some row) = ok (record {
  worker_id = row.worker_id;
  capabilities = row.capabilities_json;
  ttl_seconds = row.ttl_seconds;
  revision = row.revision;
})

unfoldable pub list_capabilities : String → Exec CapabilityReply
list_capabilities worker_id db = (reply_of (find_worker worker_id db.workers), db)

-- the dict that `create_subscription` returns
pub record SubscriptionReply : Type 0 where
  pub subscription_id : String
  pub stream_endpoint : String
  pub ttl_seconds : ℤ

-- The dispatcher leaves the endpoint's base and the time to live at their defaults.
unfoldable pub create_subscription :
    Platform → Resolver → String → Option Fields → Option ℤ → Exec SubscriptionReply
create_subscription py resolver agent_did filter_dict since_revision = do
  raise_if (not (is_some (resolver.resolve agent_did))) (value_error "DID_NOT_RESOLVED: ")
  sub_id ← uuid py
  created_at ← utcnow py
  let endpoint = py.format "wss://localhost/wcp/sub/{}" (str sub_id ∷ [])
  modify (λ db. record db {
    subscriptions =
        db.subscriptions
        ++ record {
          subscription_id = sub_id;
          agent_did = agent_did;
          filter_json = filter_dict;
          since_revision = since_revision;
          stream_endpoint = endpoint;
          ttl_seconds = pos 3600;
          created_at = created_at;
        }
          ∷ [];
  })
  pure (record { subscription_id = sub_id; stream_endpoint = endpoint; ttl_seconds = pos 3600 })
