-- ===== src/Coordinators/Service.antt =====
-- infrastructure/public-registry/app/main.py: the routes that read and write coordinators. The
-- pages and the health route are left out.
use worker_context_protocol.Prelude.{
  String, Bool, true, false, not, Option, none, some, List, [], ◌∷◌, ◌++◌, ◌==◌, if◌then◌else◌,
}
use worker_context_protocol.Prelude.Int.{ℤ, ltb_ℤ}
use worker_context_protocol.Json.{Fields, arr, nil, get_or}
use worker_context_protocol.Json.Builtins.{contains_text}
use worker_context_protocol.Coordinators.{
  Libraries, CoordinatorDescriptor, Coordinator, dump, is_valid,
}
use worker_context_protocol.Coordinators.Signature.{verify_descriptor_signature}
use worker_context_protocol.Result.{Result, ok, err, ◌>>=◌}

-- `server_error` is an exception that no route handles
pub data Reply : Type 0 where
  created : CoordinatorDescriptor → Reply
  found : Fields → Reply
  no_content unprocessable server_error : Reply
  bad_request not_found : String → Reply

abbrev pub Table : Type 0
Table = List Coordinator

-- `db.get(Coordinator, did)`
unfoldable pub find_coordinator : String → Table → Option Coordinator
find_coordinator did [] = none
find_coordinator did (r ∷ rest) =
    let later = find_coordinator did rest in if r.did == did then some r else later

-- an UPDATE of the row with the primary key
unfoldable pub write_coordinator : String → Coordinator → Table → Table
write_coordinator did row [] = []
write_coordinator did row (r ∷ rest) =
    let later = write_coordinator did row rest in if r.did == did then row ∷ rest else r ∷ later

-- `db.delete(row)`
unfoldable pub delete_row : String → Table → Table
delete_row did [] = []
delete_row did (r ∷ rest) =
    let later = delete_row did rest in if r.did == did then rest else r ∷ later

-- `Coordinator(…)`
abbrev pub row_of : CoordinatorDescriptor → Coordinator
row_of d = record {
  did = d.did;
  endpoint = d.endpoint;
  operator = d.operator;
  operator_country = d.operator_country;
  conformance_level = d.conformance_level;
  descriptor_json = dump d;
  public_key_multibase = d.public_key_multibase;
  signed_at = d.signed_at;
}

-- the assignments to `existing`, which leave its identifier and its key
abbrev pub updated : CoordinatorDescriptor → Coordinator → Coordinator
updated d existing = record existing {
  endpoint = d.endpoint;
  operator = d.operator;
  operator_country = d.operator_country;
  conformance_level = d.conformance_level;
  descriptor_json = dump d;
  signed_at = d.signed_at;
}

-- after the signature has verified
abbrev pub store_descriptor : CoordinatorDescriptor → Table → Option Coordinator → Reply × Table
store_descriptor d table none = (created d, table ++ row_of d ∷ [])
store_descriptor d table (some existing) =
    if not (existing.public_key_multibase == d.public_key_multibase)
    then (
      bad_request
          "public_key_multibase change on update is forbidden; delete the entry and re-register",
      table,
    )
    else (created d, write_coordinator d.did (updated d existing) table)

abbrev pub after_check : (Table → Reply × Table) → Table → Result Bool → Reply × Table
after_check next table (err e) = (server_error, table)
after_check next table (ok false) = (bad_request "signature verification failed", table)
after_check next table (ok true) = next table

unfoldable pub register_coordinator : Libraries → CoordinatorDescriptor → Table → Reply × Table
register_coordinator libs d table =
    if not (is_valid libs d)
    then (unprocessable, table)
    else after_check (λ t. store_descriptor d t (find_coordinator d.did t)) table
        (verify_descriptor_signature libs (dump d))

abbrev pub remove_descriptor :
    String → CoordinatorDescriptor → Table → Option Coordinator → Reply × Table
remove_descriptor did d table none = (not_found "coordinator not found", table)
remove_descriptor did d table (some row) =
    if not (row.public_key_multibase == d.public_key_multibase)
    then (bad_request "public_key_multibase mismatch with stored descriptor", table)
    else (no_content, delete_row did table)

unfoldable pub delete_coordinator :
    Libraries → String → CoordinatorDescriptor → Table → Reply × Table
delete_coordinator libs did d table =
    if not (is_valid libs d)
    then (unprocessable, table)
    else if not (d.did == did)
    then (bad_request "path DID does not match descriptor DID", table)
    else after_check (λ t. remove_descriptor did d t (find_coordinator did t)) table
        (verify_descriptor_signature libs (dump d))

-- the stored dict, which the route parses again
unfoldable pub get_coordinator : String → Table → Reply
get_coordinator did table = elim (find_coordinator did table) [
  | none ↦ not_found "coordinator not found"
  | some row ↦ found row.descriptor_json
]

-- the text is asked for and the list of the key does not have it
abbrev lacks : Option String → String → Fields → Result Bool
lacks none key desc = ok false
lacks (some text) key desc = do
  holds ← contains_text text (get_or key (arr nil) desc)
  ok (not holds)

abbrev is_elsewhere : Option String → Coordinator → Bool
is_elsewhere none row = false
is_elsewhere (some country) row = not (row.operator_country == country)

-- the tests of one row in the loop
unfoldable pub is_listed :
    Option String → Option String → Option String → ℤ → Coordinator → Result Bool
is_listed country descriptor_type worker_class min_conformance row =
    if ltb_ℤ row.conformance_level min_conformance
    then ok false
    else if is_elsewhere country row
    then ok false
    else (do
      off_type ← lacks descriptor_type "descriptor_types_accepted" row.descriptor_json
      if off_type then ok false else (do
        off_class ← lacks worker_class "worker_classes_accepted" row.descriptor_json
        ok (not off_class)))

-- the dicts of the rows that are listed, in the order of the table
unfoldable pub list_coordinators :
    Option String → Option String → Option String → ℤ → Table → Result (List Fields)
list_coordinators country descriptor_type worker_class min_conformance [] = ok []
list_coordinators country descriptor_type worker_class min_conformance (row ∷ rest) =
    let later = list_coordinators country descriptor_type worker_class min_conformance rest in
    do
      listed ← is_listed country descriptor_type worker_class min_conformance row
      others ← later
      ok (if listed then row.descriptor_json ∷ others else others)

-- The requests that may write.
pub data Request : Type 0 where
  post : CoordinatorDescriptor → Request
  delete : String → CoordinatorDescriptor → Request

abbrev pub handle : Libraries → Request → Table → Reply × Table
handle libs (post d) table = register_coordinator libs d table
handle libs (delete did d) table = delete_coordinator libs did d table

-- one after the other
abbrev pub handle_all : Libraries → List Request → Table → Table
handle_all libs [] table = table
handle_all libs (r ∷ rest) table = handle_all libs rest (handle libs r table).1
