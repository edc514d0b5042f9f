-- ===== src/Tasks/Post/Eligible.antt =====
-- `_count_eligible` of tasks/post: the query derived from the task, and its matches.
use worker_context_protocol.Prelude.{
  ℕ, String, Bool, true, false, List, [], ◌∷◌, length, if◌then◌else◌,
}
use worker_context_protocol.Json
use worker_context_protocol.Json.{
  Value, null, bool, int, str, arr, obj, Fields, end, field, get, get_or, has, put, of_list,
}
use worker_context_protocol.Json.Builtins.{or_else, as_dict, iterate, truthy}
use worker_context_protocol.Models.{WcpWorker}
use worker_context_protocol.Result.{Result, ok, err, crash, ◌>>=◌}
use worker_context_protocol.Capabilities.Matching.{matching_workers}

-- `(d.get(k) or {})` as a dict
abbrev pub dict_at : String → Fields → Result Fields
dict_at k d = as_dict (or_else (get k d) (obj end))

abbrev pub add_if : Bool → String → Value → Fields → Fields
add_if true k v f = put k v f
add_if false k v f = f

-- `(constraints.get("location") or {}).get("venue_id") or (…descriptor_payload…).get("venue_id")`
unfoldable pub venue_of : Fields → Fields → Result Value
venue_of task constraints = do
  location ← dict_at "location" constraints
  if truthy (get "venue_id" location)
      then ok (get "venue_id" location)
      else (do payload ← dict_at "descriptor_payload" task; ok (get "venue_id" payload))

-- The query that `_count_eligible` derives from the task.
unfoldable pub capability_query : Fields → Fields → Result Fields
unfolding venue_of
capability_query task constraints = do
  requirement ← dict_at "attestation_requirement" task
  methods ← (if truthy (get "modes" requirement) then iterate (get "modes" requirement) else ok [])
  venue ← venue_of task constraints
  let descriptor = get "descriptor_type" task
  let certs = get "required_certifications" constraints
  ok (
      add_if (truthy certs) "certifications" certs (
        add_if (truthy venue) "location_venue_id" venue (
          add_if (truthy descriptor) "descriptor_types" (arr (of_list (descriptor ∷ []))) (
            add_if (truthy (get "modes" requirement)) "attestation_methods" (arr (of_list methods))
              end))))

-- `len(caps.matching_workers(…))`; `in_` takes a list and nothing else
unfoldable pub count_eligible : Fields → List WcpWorker → Result ℕ
unfolding capability_query
count_eligible task workers = do
  constraints ← dict_at "constraints" task
  filter ← dict_at "worker_class_filter" constraints
  query ← capability_query task constraints
  classes ←
      (if truthy (get "allowed" filter)
        then elim (get "allowed" filter) [ arr xs ↦ ok (Json.items xs) | _ ↦ err crash ]
        else ok [])
  ws ← matching_workers query classes workers
  ok (length ws)
