-- ===== src/Federation/Anchors.antt =====
-- wcp_coordinator/federation/trust_anchor.py: the anchor and its store.
use Prim.Native.Nat.{Ordering}
use Prim.Native.String as Str
use text.Mathlib.Text.{starts_with}
use worker_context_protocol.Prelude.{
  ℕ, zero, suc, ◌+◌, ◌^◌, String, Bool, false, not, Option, none, some, List, [], ◌∷◌, ◌==◌, map,
  contains, all, if◌then◌else◌,
}
use worker_context_protocol.Prelude.Int.{ℤ, leb_ℤ, scale}
use worker_context_protocol.Json.{
  Value, str, float, arr, obj, Fields, end, field, get, has, of_list, Items,
}
use worker_context_protocol.Json.Builtins.{number_of}
use worker_context_protocol.Platform.{Platform}
use worker_context_protocol.Audit.{append}
use worker_context_protocol.Federation.{
  Seconds, Host, TrustAnchor, Local, signature_invalid, already_expired, unknown_scope, missing_key,
  off_type, Outcome, failed, done, ◌>>=◌,
}

abbrev pub supported_trust_classes : List String
supported_trust_classes = "capability_discovery" ∷ "reputation_query" ∷ "audit_chain_export" ∷ []

-- `s[len("ed25519:"):]`
abbrev drop : ℕ → String → String
drop zero s = s
drop (suc n) Str.[] = Str.[]
drop (suc n) (Str.◌∷◌ c s) = drop n s

-- `_ed25519_verify`
unfoldable pub ed25519_verify : Host → List ℕ → String → String → Bool
ed25519_verify host key body sig =
    if not (starts_with sig "ed25519:") then false else elim (host.decode_padded (drop 8 sig)) [
      | none ↦ false
      | some bytes ↦ host.ed25519_verify key bytes body
    ]

-- `a <= b` on floats
abbrev pub at_most : Seconds → Seconds → Bool
at_most a b = leb_ℤ (scale a.mantissa (2 ^ b.exponent)) (scale b.mantissa (2 ^ a.exponent))

unfoldable pub is_expired : TrustAnchor → Seconds → Bool
is_expired anchor now = at_most anchor.expires_at now

-- the clock is read when the class is in the scope
unfoldable pub allows : Host → TrustAnchor → String → ℕ → Bool × ℕ
allows host anchor trust_class n =
    if contains anchor.scope trust_class
    then (not (is_expired anchor (host.time n)), n + 1)
    else (false, n)

abbrev insert_text : String → List String → List String
insert_text s [] = s ∷ []
insert_text s (x ∷ xs) =
    let later = insert_text s xs in
    elim (Str.compare s x) [ Ordering.gt ↦ x ∷ later | _ ↦ s ∷ x ∷ xs ]

-- `sorted` on texts
abbrev pub sort_texts : List String → List String
sort_texts [] = []
sort_texts (s ∷ rest) = insert_text s (sort_texts rest)

abbrev pub seconds_value : Seconds → Value
seconds_value t = float t.mantissa t.exponent

abbrev pub scope_value : TrustAnchor → Value
scope_value anchor = arr (of_list (map str (sort_texts anchor.scope)))

unfoldable pub signed_body : Platform → TrustAnchor → String
signed_body py anchor = py.dumps (
    obj (
      field "peer_coordinator_did" (str anchor.peer_coordinator_did) (
        field "peer_endpoint_url" (str anchor.peer_endpoint_url) (
          field "scope" (scope_value anchor) (
            field "established_at" (seconds_value anchor.established_at)
              (field "expires_at" (seconds_value anchor.expires_at) end))))))

unfoldable pub verify_signature : Platform → Host → TrustAnchor → Bool
verify_signature py host anchor =
    ed25519_verify host anchor.peer_public_key (signed_body py anchor) anchor.signature

unfoldable pub to_dict : Host → TrustAnchor → Fields
to_dict host anchor = field "peer_coordinator_did" (str anchor.peer_coordinator_did) (
    field "peer_public_key_b64" (str (host.encode_base64 anchor.peer_public_key)) (
      field "peer_endpoint_url" (str anchor.peer_endpoint_url) (
        field "scope" (scope_value anchor) (
          field "established_at" (seconds_value anchor.established_at) (
            field "expires_at" (seconds_value anchor.expires_at)
              (field "signature" (str anchor.signature) end))))))

-- `d[key]`
abbrev item : String → Fields → Outcome Value
item key d = if has key d then done (get key d) else failed missing_key

abbrev as_text : Value → Outcome String
as_text (str s) = done s
as_text _ = failed off_type

abbrev seconds_of : Option (ℤ × ℕ) → Outcome Seconds
seconds_of none = failed off_type
seconds_of (some (m, e)) = done (record { mantissa = m; exponent = e })

abbrev decoded : Option (List ℕ) → Outcome (List ℕ)
decoded none = failed off_type
decoded (some bytes) = done bytes

abbrev texts : Items → Outcome (List String)
texts Items.nil = done []
texts (Items.cons v vs) = do s ← as_text v; rest ← texts vs; done (s ∷ rest)

abbrev distinct : List String → List String
distinct [] = []
distinct (s ∷ rest) = let others = distinct rest in if contains others s then others else s ∷ others

-- `frozenset(d["scope"])` on a list of texts
abbrev scope_of : Value → Outcome (List String)
scope_of (arr xs) = do ss ← texts xs; done (distinct ss)
scope_of _ = failed off_type

abbrev check_scope : List String → Outcome (List String)
check_scope scope =
    if all (contains supported_trust_classes) scope then done scope else failed unknown_scope

unfoldable pub from_dict : Host → Fields → Outcome TrustAnchor
from_dict host d = do
  members ← item "scope" d
  names ← scope_of members
  scope ← check_scope names
  did ← item "peer_coordinator_did" d
  peer ← as_text did
  key_text ← item "peer_public_key_b64" d
  encoded ← as_text key_text
  key ← decoded (host.decode_base64 encoded)
  endpoint ← item "peer_endpoint_url" d
  url ← as_text endpoint
  since ← item "established_at" d
  established ← seconds_of (number_of since)
  until ← item "expires_at" d
  expires ← seconds_of (number_of until)
  signed ← item "signature" d
  signature ← as_text signed
  done (record {
    peer_coordinator_did = peer;
    peer_public_key = key;
    peer_endpoint_url = url;
    scope = scope;
    established_at = established;
    expires_at = expires;
    signature = signature;
  })

-- `self._by_did[did] = anchor`: the key keeps its place.
unfoldable pub put_anchor :
    String → TrustAnchor → List (String × TrustAnchor) → List (String × TrustAnchor)
put_anchor did anchor [] = (did, anchor) ∷ []
put_anchor did anchor ((k, a) ∷ rest) =
    let later = put_anchor did anchor rest in
    if k == did then (k, anchor) ∷ rest else (k, a) ∷ later

unfoldable pub find_anchor : String → List (String × TrustAnchor) → Option TrustAnchor
find_anchor did [] = none
find_anchor did ((k, a) ∷ rest) =
    let later = find_anchor did rest in if k == did then some a else later

-- `self._by_did.pop(did, None)`, what is left
unfoldable pub drop_anchor : String → List (String × TrustAnchor) → List (String × TrustAnchor)
drop_anchor did [] = []
drop_anchor did ((k, a) ∷ rest) =
    let later = drop_anchor did rest in if k == did then rest else (k, a) ∷ later

-- `TrustAnchorStore.add`
unfoldable pub add : Platform → Host → TrustAnchor → Local → Outcome (Unit {0}) × Local
add py host anchor here =
    if not (verify_signature py host anchor)
    then (failed signature_invalid, here)
    else if is_expired anchor (host.time here.readings)
    then (failed already_expired, record here { readings = here.readings + 1 })
    else (
      done tt,
      record here {
        readings = here.readings + 1;
        store = record here.store {
          by_did = put_anchor anchor.peer_coordinator_did anchor here.store.by_did;
        };
      },
    )

-- `TrustAnchorStore.get`
abbrev pub get_anchor : String → Local → Option TrustAnchor
get_anchor did here = find_anchor did here.store.by_did

-- `anchors_for_class`, from the n-th reading of the clock on
unfoldable pub anchors_for_class :
    Host → String → List (String × TrustAnchor) → ℕ → List TrustAnchor × ℕ
anchors_for_class host trust_class [] n = ([], n)
anchors_for_class host trust_class ((k, a) ∷ rest) n =
    let (allowed, n') = allows host a trust_class n in
    let (later, n'') = anchors_for_class host trust_class rest n' in
    (if allowed then a ∷ later else later, n'')

-- the entry of `remove`, where the store has an audit chain
unfoldable pub record_revocation : Platform → Host → String → String → Local → Local
record_revocation py host did reason here =
    if here.store.audited
    then record here {
      readings = here.readings + 1;
      db =
          (append py "federation_trust_anchor_revoked" did
            (field "peer_coordinator_did" (str did) (
              field "revoked_at" (seconds_value (host.time here.readings))
                (field "reason" (str reason) end)))
            none none here.db).1;
    }
    else here

-- `TrustAnchorStore.remove`
unfoldable pub remove : Platform → Host → String → String → Local → Option TrustAnchor × Local
remove py host did reason here = elim (get_anchor did here) [
  | none ↦ (none, here)
  | some removed ↦ (
    some removed,
    record_revocation py host did reason
        (record here { store = record here.store { by_did = drop_anchor did here.store.by_did } }),
  )
]
