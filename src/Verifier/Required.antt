-- ===== src/Verifier/Required.antt =====
-- The loop `for r in (…): if r not in payload: return …` that the verifiers share.
use worker_context_protocol.Prelude.{String, Option, none, some, List, [], ◌∷◌, if◌then◌else◌}
use worker_context_protocol.Json.{Value}
use worker_context_protocol.Json.Builtins.{contains_text}
use worker_context_protocol.Result.{Result, ok, ◌>>=◌}

-- The first required key that the payload lacks.
unfoldable pub first_missing : List String → Value → Result (Option String)
first_missing [] payload = ok none
first_missing (r ∷ rs) payload =
    let rest = first_missing rs payload in
    do present ← contains_text r payload; if present then rest else ok (some r)
