-- ===== src/Audit.antt =====
-- wcp_coordinator/audit_chain.py: the hash-linked, signed audit log.
pub mod Order
pub mod Append
use worker_context_protocol.Prelude.{
  ℕ, String, Bool, true, false, not, ◌&&◌, Option, none, some, List, [], ◌∷◌, ◌++◌, ◌==◌, select,
  leb, ltb, if◌then◌else◌,
}
use worker_context_protocol.Json.{Fields, str, obj, field, end}
use worker_context_protocol.Models.{WcpAudit}
use worker_context_protocol.Platform.{Platform}
use worker_context_protocol.Exec.{Exec, gets, modify, utcnow, uuid, ◌>>=◌}

-- `x or ""`
abbrev pub or_empty : Option String → String
or_empty none = ""
or_empty (some s) = s

-- the dict whose canonical JSON is hashed and signed
abbrev pub link_fields :
    String → String → String → String → Option String → Option String → Option String → Fields
link_fields event_type actor_did timestamp payload_hash prev_hash claim_id task_id =
    field "event_type" (str event_type) (
      field "actor_did" (str actor_did) (
        field "timestamp" (str timestamp) (
          field "payload_hash" (str payload_hash) (
            field "prev_hash" (str (or_empty prev_hash)) (
              field "claim_id" (str (or_empty claim_id))
                (field "task_id" (str (or_empty task_id)) end))))))

-- `if claim_id` on an optional text: None and "" are false
abbrev pub is_set : Option String → Bool
is_set none = false
is_set (some s) = not (s == "")

-- `WHERE claim_id = :claim_id`
abbrev pub has_claim : String → WcpAudit → Bool
has_claim claim_id e = elim e.claim_id [ none ↦ false | some c ↦ c == claim_id ]

-- The first row of `ORDER BY timestamp DESC`: of the latest rows the one inserted first.
abbrev pub latest_row : List WcpAudit → Option WcpAudit
latest_row [] = none
latest_row (e ∷ rest) = elim (latest_row rest) [
  | none ↦ some e
  | some l ↦ if ltb e.timestamp l.timestamp then some l else some e
]

abbrev pub hash_of : Option WcpAudit → Option String
hash_of none = none
hash_of (some e) = some e.this_hash

unfoldable pub latest_hash_for_claim : String → List WcpAudit → Option String
latest_hash_for_claim claim_id rows = hash_of (latest_row (select (has_claim claim_id) rows))

-- `self._latest_hash_for_claim(claim_id) if claim_id else None`
abbrev pub prev_hash_for : Option String → List WcpAudit → Option String
prev_hash_for none rows = none
prev_hash_for (some c) rows = if c == "" then none else latest_hash_for_claim c rows

-- the entry that `append` builds at the time `ts`
unfoldable pub make_entry :
    Platform
    → String
    → String
    → Fields
    → Option String
    → Option String
    → ℕ
    → Option String
    → String
    → WcpAudit
make_entry py event_type actor_did payload claim_id task_id ts prev_hash entry_id =
    let payload_hash : String = py.sha256_hex (py.dumps (obj payload)) in
    let link_bytes : String = py.dumps (
      obj (
        link_fields event_type actor_did (py.isoformat ts) payload_hash prev_hash claim_id
          task_id)) in
    record {
      entry_id = entry_id;
      claim_id = claim_id;
      task_id = task_id;
      event_type = event_type;
      timestamp = ts;
      actor_did = actor_did;
      payload_json = payload;
      payload_hash = payload_hash;
      prev_hash = prev_hash;
      this_hash = py.sha256_hex link_bytes;
      sig = py.sign link_bytes;
    }

-- Every caller leaves `timestamp` out, so the time is a reading of the clock.
unfoldable pub append :
    Platform → String → String → Fields → Option String → Option String → Exec (Unit {0})
append py event_type actor_did payload claim_id task_id = do
  ts ← utcnow py
  prev_hash ← gets (λ db. prev_hash_for claim_id db.audit)
  entry_id ← uuid py
  modify (λ db. record db {
    audit =
        db.audit
        ++ make_entry py event_type actor_did payload claim_id task_id ts prev_hash entry_id ∷ [];
  })

-- One insertion of `ORDER BY timestamp ASC`; rows of one time stay in insertion order.
abbrev pub insert_by_time : WcpAudit → List WcpAudit → List WcpAudit
insert_by_time e [] = e ∷ []
insert_by_time e (x ∷ xs) =
    let later = insert_by_time e xs in if leb e.timestamp x.timestamp then e ∷ x ∷ xs else x ∷ later

unfoldable pub order_by_timestamp : List WcpAudit → List WcpAudit
order_by_timestamp [] = []
order_by_timestamp (e ∷ rest) = insert_by_time e (order_by_timestamp rest)

abbrev pub same_hash : Option String → Option String → Bool
same_hash none none = true
same_hash (some a) (some b) = a == b
same_hash _ _ = false

-- the link fields of a stored row, as `verify_chain` rebuilds them
abbrev pub row_link_bytes : Platform → WcpAudit → String
row_link_bytes py e = py.dumps (
    obj (
      link_fields e.event_type e.actor_did (py.isoformat e.timestamp) e.payload_hash e.prev_hash
        e.claim_id e.task_id))

-- checks 3, 2 and 4 of one row
unfoldable pub entry_ok : Platform → WcpAudit → Bool
entry_ok py e =
    (py.sha256_hex (py.dumps (obj e.payload_json)) == e.payload_hash)
    && (py.sha256_hex (row_link_bytes py e) == e.this_hash)
    && py.verify (row_link_bytes py e) e.sig

-- the walk of `verify_chain`, from the hash of the row before
unfoldable pub walk : Platform → Option String → List WcpAudit → Bool
walk py prev [] = true
walk py prev (e ∷ rest) =
    let later = walk py (some e.this_hash) rest in
    same_hash e.prev_hash prev && entry_ok py e && later

unfoldable pub verify_chain : Platform → String → List WcpAudit → Bool
verify_chain py claim_id rows = walk py none (order_by_timestamp (select (has_claim claim_id) rows))
