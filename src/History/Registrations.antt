-- ===== src/History/Registrations.antt =====
-- The audit log across registration and subscription, wcp_coordinator/capabilities_service.py.
use worker_context_protocol.Prelude.{
  String, ◌||◌, inl, inr, Option, none, some, Bool-cases, Option-cases,
}
use worker_context_protocol.Prelude.Int.{ℤ}
use worker_context_protocol.Json.{Fields, get}
use worker_context_protocol.Json.Builtins.{is_some, is_text}
use worker_context_protocol.Models.{Db, WcpWorker, WorkerClass}
use worker_context_protocol.Platform.{Platform}
use worker_context_protocol.Resolver.{Resolver}
use worker_context_protocol.Result.{Result-cases}
use worker_context_protocol.Audit.Append.{Signs}
use worker_context_protocol.Capabilities.{
  upsert_capabilities, create_subscription, write_worker, class_of,
}
use worker_context_protocol.History.{Sound, later-IsSound}
use worker_context_protocol.Tables.{find_worker}

module _ (py : Platform) (signs : Signs py) where
  write_worker-IsSound :
      (k : String) (caps : Fields) (principal : String) (ttl : ℤ) (cls : WorkerClass)
      (old : Option WcpWorker) (db : Db)
      → Sound py db
      → Sound py (write_worker py k caps principal ttl cls old db).1
  unfolding write_worker
  write_worker-IsSound k caps principal ttl cls none db h =
      later-IsSound py signs _ _ 1 (later-IsSound py signs _ _ 1 h)
  write_worker-IsSound k caps principal ttl cls (some old) db h = later-IsSound py signs _ _ 1 h

  pub upsert_capabilities-IsSound :
      (r : Resolver) (k : String) (caps : Fields) (principal : String) (ttl : ℤ) (db : Db)
      → Sound py db
      → Sound py (upsert_capabilities py r k caps principal ttl db).1
  unfolding upsert_capabilities
  upsert_capabilities-IsSound r k caps principal ttl db h =
      elim (Bool-cases (is_some (r.resolve k))) [
        | inr b ↦ rw b h
        | inl b ↦
            rw b
              (elim (Bool-cases (
                is_text "wcp/0.1" (get "schema_version" caps)
                || is_text "wcp/0.2" (get "schema_version" caps))) [
                  | inr v ↦ rw v h
                  | inl v ↦ rw v (elim (Option-cases (class_of (get "class" caps))) [
                    | inl c ↦ rw c h
                    | inr (cls, c) ↦ rw c (
                        let after =
                          write_worker-IsSound k caps principal ttl cls (find_worker k db.workers)
                            db h in
                        elim (Result-cases
                          (write_worker py k caps principal ttl cls (find_worker k db.workers)
                            db).0) [ inl (e, w) ↦ rw w after | inr (n, w) ↦ rw w after ])
                  ])
                ])
      ]

  pub create_subscription-IsSound :
      (r : Resolver) (a : String) (f : Option Fields) (s : Option ℤ) (db : Db)
      → Sound py db
      → Sound py (create_subscription py r a f s db).1
  unfolding create_subscription
  create_subscription-IsSound r a f s db h = elim (Bool-cases (is_some (r.resolve a))) [
    | inr b ↦ rw b h
    | inl b ↦ rw b (later-IsSound py signs _ _ 1 h)
  ]
