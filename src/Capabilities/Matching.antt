-- ===== src/Capabilities/Matching.antt =====
-- `matching_workers` of wcp_coordinator/capabilities_service.py.
use worker_context_protocol.Prelude.{
  String, Bool, true, false, not, List, [], ◌∷◌, ◌==◌, ◌||◌, any, if◌then◌else◌,
}
use worker_context_protocol.Json.{Value, null, arr, obj, str, Fields, end, get}
use worker_context_protocol.Json.Builtins.{
  or_else, as_dict, iterate, set_of, subset, contains_text, value_eq, truthy,
}
use worker_context_protocol.Json
use worker_context_protocol.Models.{
  WorkerClass, human, autonomous_robot, teleoperated_robot, semi_autonomous, hybrid, WcpWorker,
  worker_class_value,
}
use worker_context_protocol.Result.{Result, ok, err, crash, ◌>>=◌}

-- `set(d.get(k, []) or [])`
abbrev set_at : String → Fields → Result (List Value)
set_at k d = do xs ← iterate (or_else (get k d) (arr Json.nil)); set_of xs

-- every requested method is supported
unfoldable pub supports_methods : List Value → Value → Result Bool
supports_methods [] required = ok true
supports_methods (m ∷ ms) required = do
  r ← as_dict required
  supported ← set_at "attestation_methods_supported" r
  ok (subset (m ∷ ms) supported)

-- enforced only where the worker declares the field
unfoldable pub supports_descriptors : List Value → Value → Result Bool
supports_descriptors [] required = ok true
supports_descriptors (d ∷ ds) required = do
  declared ← contains_text "descriptor_types_supported" required
  if declared
      then (do
        r ← as_dict required
        supported ← set_at "descriptor_types_supported" r
        ok (subset (d ∷ ds) supported))
      else ok true

-- `{(c or {}).get("id") for c in …}`
unfoldable pub certification_ids : List Value → Result (List Value)
certification_ids [] = ok []
certification_ids (c ∷ cs) =
    let later = certification_ids cs in
    do f ← as_dict (or_else c (obj end)); ids ← later; ok (get "id" f ∷ ids)

unfoldable pub has_certifications : List Value → Value → Result Bool
unfolding certification_ids
has_certifications [] required = ok true
has_certifications (c ∷ cs) required = do
  r ← as_dict required
  held ← iterate (or_else (get "certifications" r) (arr Json.nil))
  ids ← set_of (← certification_ids held)
  ok (subset (c ∷ cs) ids)

unfoldable pub at_venue : Value → Value → Result Bool
unfolding value_eq
at_venue null required = ok true
at_venue venue required = do
  r ← as_dict required
  location ← as_dict (or_else (get "current_location" r) (obj end))
  ok (value_eq (get "venue_id" location) venue)

-- what `matching_workers` takes from the query
pub record Wanted : Type 0 where
  pub methods : List Value
  pub descriptors : List Value
  pub certifications : List Value
  pub venue : Value

unfoldable pub wanted_of : Fields → Result Wanted
wanted_of query = do
  methods ← set_at "attestation_methods" query
  descriptors ← set_at "descriptor_types" query
  certifications ← set_at "certifications" query
  ok (record {
    methods = methods;
    descriptors = descriptors;
    certifications = certifications;
    venue = get "location_venue_id" query;
  })

-- `(w.capabilities_json or {}).get("required") or {}`
abbrev pub required_block : WcpWorker → Value
required_block w = or_else (get "required" w.capabilities_json) (obj end)

-- The body of the loop: each failed test is a `continue`.
unfoldable pub satisfies : Wanted → Value → Result Bool
satisfies q required = do
  methods ← supports_methods q.methods required
  if not methods then ok false else do
    descriptors ← supports_descriptors q.descriptors required
    if not descriptors then ok false else do
      certs ← has_certifications q.certifications required
      if not certs then ok false else at_venue q.venue required

unfoldable pub matched : Wanted → List WcpWorker → Result (List WcpWorker)
matched q [] = ok []
matched q (w ∷ rest) =
    let later = matched q rest in
    do fits ← satisfies q (required_block w); ws ← later; ok (if fits then w ∷ ws else ws)

-- the texts of the class filter; the column accepts nothing else
unfoldable pub filter_texts : List Value → Result (List String)
filter_texts [] = ok []
filter_texts (str s ∷ vs) = let later = filter_texts vs in do ss ← later; ok (s ∷ ss)
filter_texts (_ ∷ vs) = err crash

-- the names of the members, which the column stores
abbrev pub worker_class_name : WorkerClass → String
worker_class_name human = "HUMAN"
worker_class_name autonomous_robot = "AUTONOMOUS_ROBOT"
worker_class_name teleoperated_robot = "TELEOPERATED_ROBOT"
worker_class_name semi_autonomous = "SEMI_AUTONOMOUS"
worker_class_name hybrid = "HYBRID"

-- `worker_class.in_(filter)`: the column takes a text for the member of that value, or of that name
unfoldable pub class_allowed : List String → WcpWorker → Bool
class_allowed classes w =
    any (λ c. c == worker_class_value w.worker_class || c == worker_class_name w.worker_class)
      classes

unfoldable pub with_class : List String → List WcpWorker → List WcpWorker
with_class classes [] = []
with_class classes (w ∷ rest) =
    let later = with_class classes rest in if class_allowed classes w then w ∷ later else later

unfoldable pub candidates : List Value → List WcpWorker → Result (List WcpWorker)
unfolding filter_texts with_class class_allowed
candidates [] workers = ok workers
candidates (v ∷ vs) workers = do classes ← filter_texts (v ∷ vs); ok (with_class classes workers)

unfoldable pub matching_workers : Fields → List Value → List WcpWorker → Result (List WcpWorker)
matching_workers query worker_class_filter workers = do
  rows ← candidates worker_class_filter workers
  if truthy (obj query) then (do q ← wanted_of query; matched q rows) else ok rows
