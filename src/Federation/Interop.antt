-- ===== src/Federation/Interop.antt =====
-- A chain as one coordinator exports it and another one checks it.
use worker_context_protocol.Prelude.{
  String, ◌≡◌, ◌≢◌, refl, sym, ap, ◌∙◌, inl, inr, Bool, true, false, ◌&&◌, Option, none, some, List,
  [], ◌∷◌, ◌==◌, eq_iff, map, select, Bool-cases,
}
use worker_context_protocol.Json.{Value, null, str, obj, Fields, end, field}
use worker_context_protocol.Json.Builtins.{or_else, value_eq}
use worker_context_protocol.Models.{WcpAudit, empty_db}
use worker_context_protocol.Platform.{Platform}
use worker_context_protocol.Resolver.{Resolver}
use worker_context_protocol.Audit.{
  or_empty, row_link_bytes, same_hash, entry_ok, walk, verify_chain, order_by_timestamp, has_claim,
}
use worker_context_protocol.Audit.Append.{Signs, IsOrdered}
use worker_context_protocol.Federation.Segment.{
  segment_link, segment_entry_ok, segment_walk, verify_chain_segment,
}
use worker_context_protocol.Router.Export.{export_entry, federation_audit_chain}
use worker_context_protocol.Router.Traffic.{http_run, http_chains_verify}
use worker_context_protocol.Tasks.Common.{optional}
use worker_context_protocol.Verifier.Registry.{Registry}

-- A digest is a text of 64 characters, so never the empty one.
abbrev pub Digests : Platform → Type 0
Digests py = (bytes : String) → py.sha256_hex bytes ≢ ""

or_else-optional : (o : Option String) → or_else (optional o) (str "") ≡ str (or_empty o)
or_else-optional none = refl
or_else-optional (some s) = elim (Bool-cases (s == "")) [
  | inl b ↦ rw b (ap str (sym ((eq_iff s "").0 b)))
  | inr b ↦ rw b refl
]

all_three : (a b c : Bool) → (a && b && c) ≡ true → (a ≡ true) × (b ≡ true) × (c ≡ true)
all_three true true c h = (refl, refl, h)
all_three true false c h = absurd (cc h)
all_three false b c h = absurd (cc h)

payload-or : (f : Fields) → or_else (obj f) (obj end) ≡ obj f
payload-or end = refl
payload-or (field k v f) = refl

module _ (py : Platform) where
  exported_link :
      (e : WcpAudit) → py.dumps (obj (segment_link (export_entry py e))) ≡ row_link_bytes py e
  exported_link e =
      rw (or_else-optional e.prev_hash)
        (rw (or_else-optional e.claim_id) (rw (or_else-optional e.task_id) refl))

  entry_checks :
      (e : WcpAudit)
      → entry_ok py e ≡ true
      → (py.sha256_hex (py.dumps (obj e.payload_json)) ≡ e.payload_hash)
        × (py.sha256_hex (row_link_bytes py e) ≡ e.this_hash)
  unfolding entry_ok
  entry_checks e h =
      let (payload, link, signed) =
        all_three (py.sha256_hex (py.dumps (obj e.payload_json)) == e.payload_hash)
          (py.sha256_hex (row_link_bytes py e) == e.this_hash)
          (py.verify (row_link_bytes py e) e.sig) h in
      ((eq_iff _ _).0 payload, (eq_iff _ _).0 link)

  exported_entry :
      (e : WcpAudit) (prev : Value)
      → entry_ok py e ≡ true
      → value_eq (or_else (optional e.prev_hash) null) prev ≡ true
      → segment_entry_ok py prev (export_entry py e) ≡ true
  unfolding segment_entry_ok
  exported_entry e prev ok linked =
      let (payload, link) = entry_checks e ok in
      rw linked (
        rw (payload-or e.payload_json) (
          rw payload (
            rw (exported_link e) (
              rw link (
                rw ((eq_iff e.payload_hash e.payload_hash).1 refl)
                  ((eq_iff e.this_hash e.this_hash).1 refl))))))

  -- None, or a text that is not empty
  IsLink : Option String → Type 0
  IsLink none = Unit
  IsLink (some h) = h ≢ ""

  linked-value_eq :
      (o p : Option String)
      → IsLink p
      → same_hash o p ≡ true
      → value_eq (or_else (optional o) null) (optional p) ≡ true
  unfolding value_eq IsLink
  linked-value_eq none none h s = refl
  linked-value_eq none (some b) h s = absurd (cc s)
  linked-value_eq (some a) none h s = absurd (cc s)
  linked-value_eq (some a) (some b) h s = elim (Bool-cases (a == "")) [
    | inl x ↦ absurd (h (sym ((eq_iff a b).0 s) ∙ (eq_iff a "").0 x))
    | inr x ↦ rw x s
  ]

  exported_walk :
      Digests py
      → (prev : Option String) (rows : List WcpAudit) → IsLink prev
      → walk py prev rows ≡ true
      → segment_walk py (optional prev) (map (export_entry py) rows) ≡ true
  unfolding walk segment_walk IsLink
  exported_walk digests prev [] p w = refl
  exported_walk digests prev (e ∷ rows) p w =
      let (linked, ok, later) =
        all_three (same_hash e.prev_hash prev) (entry_ok py e) (walk py (some e.this_hash) rows)
          w in
      let named : e.this_hash ≢ "" =
        λ empty. digests (row_link_bytes py e) ((entry_checks e ok).1 ∙ empty) in
      rw (exported_entry e (optional prev) ok (linked-value_eq e.prev_hash prev p linked))
        (exported_walk digests (some e.this_hash) rows named later)

-- A chain that the coordinator's own `verify_chain` accepts is, as the federation endpoint exports
-- it, accepted by a peer's `verify_chain_segment`, where no digest is the empty text.
pub exported_chain_accepted :
    (py : Platform) (c : String) (rows : List WcpAudit)
    → Digests py
    → verify_chain py c rows ≡ true
    → verify_chain_segment py (federation_audit_chain py c rows) ≡ true
unfolding verify_chain verify_chain_segment federation_audit_chain IsLink
exported_chain_accepted py c rows digests w =
    exported_walk py digests none (order_by_timestamp (select (has_claim c) rows)) tt w

-- Where no digest is the empty text and the signer's signatures verify, after any HTTP requests to a
-- coordinator with an empty database, a peer accepts what the federation endpoint exports of any
-- claim whose identifier is not empty and whose entries were written at increasing times, no two of
-- them at one time.
pub served_chain_accepted :
    (py : Platform)
    → Digests py
    → Signs py
    → (r : Resolver) (reg : Registry) (ps : List Fields) (c : String) → c ≢ ""
    → IsOrdered c (http_run py r reg empty_db ps).audit
    → verify_chain_segment py (federation_audit_chain py c (http_run py r reg empty_db ps).audit)
      ≡ true
served_chain_accepted py digests signs r reg ps c named ordered =
    exported_chain_accepted py c _ digests (http_chains_verify py signs r reg ps c named ordered)
