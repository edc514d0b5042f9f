-- ===== src/Preview/Lite.antt =====
-- preview/wcp_lite.py: the audit chain that a worker buffers while it is offline.
use worker_context_protocol.Prelude.{
  ℕ, ◌+◌, String, Bool, true, false, not, ◌||◌, Option, none, some, List, [], ◌∷◌, ◌++◌, ◌==◌, leb,
  length, if◌then◌else◌,
}
use worker_context_protocol.Prelude.Int.{ℤ, pos, leb_ℤ}
use worker_context_protocol.Json.{str, int, bool, obj, Fields, end, field}
use worker_context_protocol.Platform.{Platform}
use worker_context_protocol.Audit.{same_hash}
use worker_context_protocol.Sdk.Types.{text_or}
use worker_context_protocol.Tasks.Common.{optional}

pub record AuditEntry : Type 0 where
  pub entry_id : String
  pub task_id : String
  pub claim_id : Option String
  pub timestamp : String
  pub signer_did : String
  pub payload : Fields
  pub previous_entry_hash : Option String
  pub entry_hash : String
  pub signature : String

pub record BufferedAuditChain : Type 0 where
  pub worker_did : String
  pub capacity : ℕ
  pub entries : List AuditEntry
  pub last_hash : Option String

-- `__init__`
abbrev pub empty_buffer : String → ℕ → BufferedAuditChain
empty_buffer did capacity = record {
  worker_did = did;
  capacity = capacity;
  entries = [];
  last_hash = none;
}

-- BufferOverflowError with its two fields
pub data Appended : Type 0 where
  overflow : ℕ → ℕ → Appended
  appended : AuditEntry → Appended

unfoldable pub is_full : BufferedAuditChain → Bool
is_full chain = leb chain.capacity (length chain.entries)

-- the dict whose canonical JSON is hashed
abbrev pub entry_body :
    String → String → Option String → String → String → Fields → Option String → Fields
entry_body id task claim at signer payload previous = field "entry_id" (str id) (
    field "task_id" (str task) (
      field "claim_id" (optional claim) (
        field "timestamp" (str at) (
          field "signer_did" (str signer) (
            field "payload" (obj payload) (field "previous_entry_hash" (optional previous) end))))))

-- What a caller gives `append`.
pub record Submission : Type 0 where
  pub entry_id : String
  pub task_id : String
  pub claim_id : Option String
  pub signer_did : String
  pub payload : Fields
  pub signature : String
  pub timestamp : Option String

-- the entry that `append` makes; `now` is the text of the clock's time
unfoldable pub make_entry : Platform → String → Submission → Option String → AuditEntry
make_entry py now s previous =
    let at = text_or now s.timestamp in
    record {
      entry_id = s.entry_id;
      task_id = s.task_id;
      claim_id = s.claim_id;
      timestamp = at;
      signer_did = s.signer_did;
      payload = s.payload;
      previous_entry_hash = previous;
      entry_hash = py.sha256_hex (
          py.dumps
            (obj (entry_body s.entry_id s.task_id s.claim_id at s.signer_did s.payload previous)));
      signature = s.signature;
    }

-- `BufferedAuditChain.append`
unfoldable pub append :
    Platform → String → Submission → BufferedAuditChain → Appended × BufferedAuditChain
append py now s chain =
    if is_full chain
    then (overflow chain.capacity (length chain.entries + 1), chain)
    else let entry = make_entry py now s chain.last_hash in
      (
        appended entry,
        record chain { entries = chain.entries ++ entry ∷ []; last_hash = some entry.entry_hash },
      )

-- the hash of an entry, computed again
abbrev pub expected_hash : Platform → AuditEntry → String
expected_hash py e = py.sha256_hex (
    py.dumps (
      obj (
        entry_body e.entry_id e.task_id e.claim_id e.timestamp e.signer_did e.payload
          e.previous_entry_hash)))

-- the loop of `verify_chain_integrity`
unfoldable pub integrity_from : Platform → Option String → List AuditEntry → Bool
integrity_from py prev [] = true
integrity_from py prev (e ∷ rest) =
    let later = integrity_from py (some e.entry_hash) rest in
    if not (e.entry_hash == expected_hash py e)
    then false
    else if not (same_hash e.previous_entry_hash prev)
    then false
    else later

abbrev pub verify_chain_integrity : Platform → BufferedAuditChain → Bool
verify_chain_integrity py chain = integrity_from py none chain.entries

unfoldable pub clear : BufferedAuditChain → BufferedAuditChain
clear chain = record chain { entries = []; last_hash = none }

-- a batch, with the coordinator's answer as a function
unfoldable pub replay_batch :
    Platform
    → (List AuditEntry → Bool)
    → BufferedAuditChain
    → List AuditEntry
    → Bool × BufferedAuditChain
replay_batch py submit chain [] = (true, chain)
replay_batch py submit chain (e ∷ es) =
    if not (verify_chain_integrity py chain)
    then (false, chain)
    else if submit (e ∷ es)
    then (true, clear chain)
    else (false, chain)

unfoldable pub replay_on_reconnect :
    Platform → (List AuditEntry → Bool) → BufferedAuditChain → Bool × BufferedAuditChain
replay_on_reconnect py submit chain = replay_batch py submit chain chain.entries

-- none for a ValueError
unfoldable pub build_intermittent_capability_extension : ℤ → String → ℤ → Option Fields
build_intermittent_capability_extension seconds pattern capacity =
    if not (pattern == "predictable" || pattern == "unpredictable")
    then none
    else if leb_ℤ seconds (pos 0)
    then none
    else some (
        field "connectivity_profile" (str "intermittent") (
          field "max_offline_duration_seconds" (int seconds) (
            field "expected_disconnect_pattern" (str pattern)
              (field "buffer_capacity_audit_entries" (int capacity) end))))

-- none for a ValueError
unfoldable pub build_task_constraint_for_intermittent_executor : Bool → Option ℤ → Option Fields
build_task_constraint_for_intermittent_executor accepts none =
    some (field "accepts_intermittent_executor" (bool accepts) end)
build_task_constraint_for_intermittent_executor accepts (some seconds) =
    if leb_ℤ seconds (pos 0)
    then none
    else some (
        field "accepts_intermittent_executor" (bool accepts)
          (field "max_acceptable_offline_seconds" (int seconds) end))
