-- ===== src/Federation/Segment.antt =====
-- wcp_coordinator/federation/audit_export.py: the check of a peer's chain segment.
use worker_context_protocol.Prelude.{
  Bool, true, false, ◌&&◌, ◌||◌, Option, none, some, List, [], ◌∷◌, if◌then◌else◌,
}
use worker_context_protocol.Json.{Value, null, str, obj, Fields, end, field, get}
use worker_context_protocol.Json.Builtins.{is_text, or_else, value_eq}
use worker_context_protocol.Platform.{Platform}

-- the dict of the link, rebuilt from an entry
abbrev pub segment_link : Fields → Fields
segment_link e = field "event_type" (get "event_type" e) (
    field "actor_did" (get "actor_did" e) (
      field "timestamp" (get "timestamp" e) (
        field "payload_hash" (get "payload_hash" e) (
          field "prev_hash" (or_else (get "prev_hash" e) (str "")) (
            field "claim_id" (or_else (get "claim_id" e) (str ""))
              (field "task_id" (or_else (get "task_id" e) (str "")) end))))))

-- the three checks of an entry, after the hash of the entry before
unfoldable pub segment_entry_ok : Platform → Value → Fields → Bool
segment_entry_ok py prev e =
    value_eq (or_else (get "prev_hash" e) null) prev
    && is_text (py.sha256_hex (py.dumps (or_else (get "payload_json" e) (obj end))))
        (get "payload_hash" e)
    && is_text (py.sha256_hex (py.dumps (obj (segment_link e)))) (get "this_hash" e)

unfoldable pub segment_walk : Platform → Value → List Fields → Bool
segment_walk py prev [] = true
segment_walk py prev (e ∷ rest) =
    let later = segment_walk py (get "this_hash" e) rest in segment_entry_ok py prev e && later

unfoldable pub verify_chain_segment : Platform → List Fields → Bool
verify_chain_segment py entries = segment_walk py null entries

abbrev is_final : Value → Bool
is_final v = is_text "task_completed" v || is_text "task_voided" v || is_text "task_aborted" v

abbrev is_null : Value → Bool
is_null null = true
is_null _ = false

-- the last final event of a segment, or None
unfoldable pub completion_event : List Fields → Value
completion_event [] = null
completion_event (e ∷ rest) =
    let later = completion_event rest in
    if is_null later && is_final (get "event_type" e) then get "event_type" e else later

-- the last entry, none for an empty segment
abbrev pub last_entry : List Fields → Option Fields
last_entry [] = none
last_entry (e ∷ rest) = elim (last_entry rest) [ none ↦ some e | some l ↦ some l ]
