-- ===== src/Router/Traffic.antt =====
-- Series of requests over HTTP, each in a session of its own.
use worker_context_protocol.Prelude.{
  String, ◌≡◌, ◌≢◌, refl, true, List, [], ◌∷◌, inl, inr, Option-cases, Bool-cases,
}
use worker_context_protocol.Json.{Fields, get}
use worker_context_protocol.Json.Builtins.{is_text}
use worker_context_protocol.Models.{Db, empty_db}
use worker_context_protocol.Platform.{Platform}
use worker_context_protocol.Resolver.{Resolver}
use worker_context_protocol.Audit.{verify_chain}
use worker_context_protocol.Audit.Append.{Signs, IsOrdered}
use worker_context_protocol.History.Chains.{chains_verify}
use worker_context_protocol.Requests.{Request, run}
use worker_context_protocol.Router.{http_rpc, method_text}
use worker_context_protocol.Rpc.Steps.{Served, dispatch-Served}
use worker_context_protocol.Verifier.Registry.{Registry}

-- the rows after a series of HTTP requests
unfoldable pub http_run : Platform → Resolver → Registry → Db → List Fields → Db
http_run py r reg db [] = db
http_run py r reg db (p ∷ ps) = http_run py r reg (http_rpc py r reg p db).1 ps

http_rpc-Served :
    (py : Platform) (r : Resolver) (reg : Registry) (p : Fields) (db : Db)
    → Served py r reg db (http_rpc py r reg p db).1
unfolding http_rpc
http_rpc-Served py r reg p db = elim (Bool-cases (is_text "2.0" (get "jsonrpc" p))) [
  | inr v ↦ rw v Served.untouched
  | inl v ↦ elim (Option-cases (method_text (get "method" p))) [
    | inl t ↦ rw v (rw t Served.untouched)
    | inr (m, t) ↦ rw v (rw t (dispatch-Served py r reg m _ db))
  ]
]

-- What a run of requests of the services reaches.
abbrev pub Runs : Platform → Resolver → Registry → Db → Db → Type 0
Runs py r reg before after = (qs : List Request) × (after ≡ run py r reg before qs)

then-Runs :
    (py : Platform) (r : Resolver) (reg : Registry) (before between after : Db)
    → Served py r reg before between
    → Runs py r reg between after
    → Runs py r reg before after
unfolding run
then-Runs py r reg before between after Served.untouched h = h
then-Runs py r reg before between after (Served.stepped q) (qs, p) = (q ∷ qs, p)

-- What any series of HTTP requests leaves, malformed ones and failing calls included, is what a
-- series of calls of the services leaves.
pub http_run-Runs :
    (py : Platform) (r : Resolver) (reg : Registry) (db : Db) (ps : List Fields)
    → Runs py r reg db (http_run py r reg db ps)
unfolding http_run run
http_run-Runs py r reg db [] = ([], refl)
http_run-Runs py r reg db (p ∷ ps) =
    let db' = (http_rpc py r reg p db).1 in
    then-Runs py r reg db db' _ (http_rpc-Served py r reg p db) (http_run-Runs py r reg db' ps)

-- Where the signer's signatures verify, after any series of HTTP requests to a coordinator that
-- starts with an empty database, the chain verifies of every claim whose identifier is not empty and
-- whose entries were written at increasing times, no two of them at one time.
pub http_chains_verify :
    (py : Platform)
    → Signs py
    → (r : Resolver) (reg : Registry) (ps : List Fields) (c : String) → c ≢ ""
    → IsOrdered c (http_run py r reg empty_db ps).audit
    → verify_chain py c (http_run py r reg empty_db ps).audit ≡ true
http_chains_verify py signs r reg ps c named ordered =
    let (qs, p) = http_run-Runs py r reg empty_db ps in
    rw p (chains_verify py signs r reg qs c named (rw p at ordered))
