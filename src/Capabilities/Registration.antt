-- ===== src/Capabilities/Registration.antt =====
-- A registration and the listing after it.
use worker_context_protocol.Prelude.{
  ℕ, ◌+◌, String, ◌≡◌, refl, ap, ◌∙◌, ◌||◌, inl, inr, none, some, List, [], ◌∷◌, ◌++◌, arith,
  Option-cases, eq_iff, Bool-cases,
}
use worker_context_protocol.Prelude.Int.{ℤ}
use worker_context_protocol.Json.{Fields, get}
use worker_context_protocol.Json.Builtins.{is_some, is_text}
use worker_context_protocol.Models.{Db, WcpWorker, WorkerClass}
use worker_context_protocol.Platform.{Platform}
use worker_context_protocol.Resolver.{Resolver}
use worker_context_protocol.Result.{Result, ok}
use worker_context_protocol.Tables.{find_worker, save_worker}
use worker_context_protocol.Capabilities.{
  upsert_capabilities, list_capabilities, write_worker, CapabilityReply, class_of, reply_of,
}

find_worker-save_worker :
    (k : String) (w : WcpWorker) (old : WcpWorker) (ws : List WcpWorker)
    → find_worker k ws ≡ some old
    → w.worker_id ≡ k
    → find_worker k (save_worker w ws) ≡ some w
unfolding find_worker save_worker
find_worker-save_worker k w old [] h e = cc
find_worker-save_worker k w old (x ∷ ws) h e = ground (
  arith,
  find_worker-save_worker k w old ws,
  eq_iff x.worker_id k,
  eq_iff x.worker_id w.worker_id,
)

find_worker-add :
    (k : String) (w : WcpWorker) (ws : List WcpWorker)
    → find_worker k ws ≡ none
    → w.worker_id ≡ k
    → find_worker k (ws ++ w ∷ []) ≡ some w
unfolding find_worker
find_worker-add k w [] h e = ground (arith, eq_iff w.worker_id k)
find_worker-add k w (x ∷ ws) h e = ground (arith, find_worker-add k w ws)

find_worker-id :
    (k : String) (w : WcpWorker) (ws : List WcpWorker) → find_worker k ws ≡ some w → w.worker_id ≡ k
unfolding find_worker
find_worker-id k w [] h = cc
find_worker-id k w (x ∷ ws) h = ground (arith, find_worker-id k w ws, eq_iff x.worker_id k)

unfoldable listed_as : Fields → ℤ → ℕ → String → Result CapabilityReply
listed_as caps ttl n k =
    ok (record { worker_id = k; capabilities = caps; ttl_seconds = ttl; revision = n })

-- What the write leaves under the key, and its revision.
write_worker-listed :
    (py : Platform) (k : String) (caps : Fields) (principal : String) (ttl : ℤ) (cls : WorkerClass)
    (db : Db)
    → (n : ℕ) × ((write_worker py k caps principal ttl cls (find_worker k db.workers) db).0 ≡ ok n)
      × (reply_of (
            find_worker k
              (write_worker py k caps principal ttl cls (find_worker k db.workers) db).1.workers)
          ≡ ok (record { worker_id = k; capabilities = caps; ttl_seconds = ttl; revision = n }))
unfolding write_worker listed_as
write_worker-listed py k caps principal ttl cls db =
    elim (Option-cases (find_worker k db.workers)) [
      | inl p ↦ rw p (1, refl, ap reply_of (find_worker-add k _ db.workers p refl))
      | inr (old, p) ↦
          let same = find_worker-id k old db.workers p in
          rw p (
            old.revision + 1,
            refl,
            ap reply_of (find_worker-save_worker k _ old db.workers p same)
                ∙ ap (listed_as caps ttl (old.revision + 1)) same,
          )
    ]

-- After a registration that returns, the listing returns the same reply and writes nothing.
pub upsert-list :
    (py : Platform) (r : Resolver) (k : String) (caps : Fields) (principal : String) (ttl : ℤ)
    (db : Db) (reply : CapabilityReply)
    → (upsert_capabilities py r k caps principal ttl db).0 ≡ ok reply
    → list_capabilities k (upsert_capabilities py r k caps principal ttl db).1
      ≡ (ok reply, (upsert_capabilities py r k caps principal ttl db).1)
unfolding upsert_capabilities list_capabilities
upsert-list py r k caps principal ttl db reply h = elim (Bool-cases (is_some (r.resolve k))) [
  | inr b ↦ absurd (cc (rw b at h))
  | inl b ↦
      let h1 = rw b at h in
      elim (Bool-cases (
        is_text "wcp/0.1" (get "schema_version" caps)
        || is_text "wcp/0.2" (get "schema_version" caps))) [
          | inr v ↦ absurd (cc (rw v at h1))
          | inl v ↦
              let h2 = rw v at h1 in
              elim (Option-cases (class_of (get "class" caps))) [
                | inl c ↦ absurd (cc (rw c at h2))
                | inr (cls, c) ↦
                    let h3 = rw c at h2 in
                    let (n, written, listed) = write_worker-listed py k caps principal ttl cls db in
                    let h4 = rw written at h3 in
                    rw b (rw v (rw c (rw written (rw listed (rw h4 refl)))))
              ]
        ]
]
