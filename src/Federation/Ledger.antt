-- ===== src/Federation/Ledger.antt =====
-- The local audit chain under the federation's operations.
use worker_context_protocol.Prelude.{String, ◌≡◌, ◌≢◌, true, List, [], ◌∷◌}
use worker_context_protocol.Models.{Db, empty_db}
use worker_context_protocol.Platform.{Platform}
use worker_context_protocol.Resolver.{Resolver}
use worker_context_protocol.Audit.{verify_chain}
use worker_context_protocol.Audit.Append.{Signs, IsOrdered}
use worker_context_protocol.Federation.{Host, Local}
use worker_context_protocol.Federation.Effects.{
  Noted, add-Noted, remove-Noted, import_peer_chain-Noted, forward_task-Noted,
  advertise_peer_capability-Noted,
}
use worker_context_protocol.Federation.Operations.{Operation, apply, operate, pick_peer}
use worker_context_protocol.History.{Sound, append-IsSound}
use worker_context_protocol.History.Chains.{run_from_empty-IsSound}
use worker_context_protocol.Requests.{Request, run}
use worker_context_protocol.Verifier.Registry.{Registry}

apply-Noted :
    (py : Platform) (host : Host) (op : Operation) (here : Local)
    → Noted py here.db (apply py host op here).db
unfolding apply pick_peer
apply-Noted py host (Operation.add_anchor a) here = add-Noted py host a here
apply-Noted py host (Operation.remove_anchor did why) here = remove-Noted py host did why here
apply-Noted py host (Operation.query_class c) here = Noted.silent
apply-Noted py host (Operation.import_chain f peer c) here =
    (import_peer_chain-Noted py host f peer c here).1
apply-Noted py host (Operation.choose_peer d accepted) here = Noted.silent
apply-Noted py host (Operation.forward f peer t e i) here =
    (forward_task-Noted py f peer t e i here).1
apply-Noted py host (Operation.advertise peer w s) here =
    (advertise_peer_capability-Noted py host peer w s here).1

module _ (py : Platform) (signs : Signs py) where
  Noted-IsSound : (before after : Db) → Noted py before after → Sound py before → Sound py after
  Noted-IsSound before after Noted.silent h = h
  Noted-IsSound before after (Noted.entry event actor payload c t) h =
      append-IsSound py signs event actor payload c t before h

  operate-IsSound :
      (host : Host) (ops : List Operation) (here : Local)
      → Sound py here.db
      → Sound py (operate py host ops here).db
  unfolding operate
  operate-IsSound host [] here h = h
  operate-IsSound host (op ∷ ops) here h =
      operate-IsSound host ops (apply py host op here)
        (Noted-IsSound here.db (apply py host op here).db (apply-Noted py host op here) h)

pub federated_log-IsSound :
    (py : Platform)
    → Signs py
    → (r : Resolver) (reg : Registry) (host : Host) (qs : List Request) (ops : List Operation)
      (here : Local)
    → here.db ≡ run py r reg empty_db qs
    → Sound py (operate py host ops here).db
federated_log-IsSound py signs r reg host qs ops here served =
    operate-IsSound py signs host ops here (rw served (run_from_empty-IsSound py signs r reg qs))

-- Where the signer's signatures verify, after any requests to the services from an empty database
-- followed by any operations of the federation (revocations, imports, refusals included), the chain
-- verifies of every claim whose identifier is not empty and whose entries were written at increasing
-- times, no two of them at one time.
pub federated_chains_verify :
    (py : Platform)
    → Signs py
    → (r : Resolver) (reg : Registry) (host : Host) (qs : List Request) (ops : List Operation)
      (here : Local) (c : String)
    → here.db ≡ run py r reg empty_db qs
    → c ≢ ""
    → IsOrdered c (operate py host ops here).db.audit
    → verify_chain py c (operate py host ops here).db.audit ≡ true
federated_chains_verify py signs r reg host qs ops here c served named ordered =
    (federated_log-IsSound py signs r reg host qs ops here served).intact c named ordered
