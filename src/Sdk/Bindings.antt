-- ===== src/Sdk/Bindings.antt =====
-- The calls of the SDK as the dispatcher binds them.
use worker_context_protocol.Prelude.{String, ◌≡◌, refl, Option, none, some, ap, List, [], ◌∷◌, map}
use worker_context_protocol.Prelude.Int.{ℤ}
use worker_context_protocol.Json.{Fields, obj, end, of_list, items}
use worker_context_protocol.Platform.{Platform}
use worker_context_protocol.Requests.{Request}
use worker_context_protocol.Rpc.Binding.{
  Bound, bind_capabilities_list, bind_capabilities_subscribe, bind_tasks_post, bind_tasks_claim,
  bind_tasks_execute, bind_tasks_execute_event, bind_tasks_attest, bind_tasks_supervise,
  bind_tasks_abort, accepts, dicts,
}
use worker_context_protocol.Rpc.Dispatch.{method_of}
use worker_context_protocol.Sdk.Calls.{
  Call, publish_capabilities, claim_call, acceptance_of, execute_call, event_call, event_canonical,
  attest_call, supervise_call, abort_call, post_call, subscribe_call,
}
use worker_context_protocol.Sdk.Identity.{Identity, sign}
use worker_context_protocol.Sdk.Types.{
  AttestationEvidence, evidence_to_dict, TaskDescriptor, task_to_dict, CapabilityDescriptor,
}

-- The call of a worker's claim is bound to the claim that it means, with the acceptance as it was signed.
pub claim_binds :
    (py : Platform) (me : Identity) (t eta : String) (bid : Option String) (now : String)
    → bind_tasks_claim (claim_call py me t eta bid now).params
      ≡ Bound.call (Request.tasks_claim t me.did eta (acceptance_of py me t eta bid now) bid)
unfolding bind_tasks_claim claim_call accepts
claim_binds py me t eta none now = refl
claim_binds py me t eta (some b) now = refl

execute_binds :
    (c : String) → bind_tasks_execute (execute_call c).params ≡ Bound.call (Request.tasks_execute c)
unfolding bind_tasks_execute execute_call accepts
execute_binds c = refl

pub event_binds :
    (py : Platform) (me : Identity) (c k : String) (p : Fields) (now : String)
    → bind_tasks_execute_event (event_call py me c k p now).params
      ≡ Bound.call
          (Request.tasks_execute_event c k now p (sign py me (obj (event_canonical c k p now))))
unfolding bind_tasks_execute_event event_call accepts
event_binds py me c k p now = refl

dicts-evidence :
    (es : List AttestationEvidence)
    → dicts (items (of_list (map (λ e. obj (evidence_to_dict e)) es)))
      ≡ some (map evidence_to_dict es)
dicts-evidence [] = refl
dicts-evidence (e ∷ es) = rw (dicts-evidence es) refl

attest_binds :
    (c : String) (es : List AttestationEvidence) (action : Option Fields)
    → bind_tasks_attest (attest_call c es action).params
      ≡ Bound.call (Request.tasks_attest c (map evidence_to_dict es))
unfolding bind_tasks_attest attest_call accepts
attest_binds c es none = rw (dicts-evidence es) refl
attest_binds c es (some a) = rw (dicts-evidence es) refl

supervise_binds :
    (c why : String) (s : Fields) (u : String)
    → bind_tasks_supervise (supervise_call c why s u).params
      ≡ Bound.call (Request.tasks_supervise c why u)
unfolding bind_tasks_supervise supervise_call accepts
supervise_binds c why s u = refl

abort_binds :
    (c why : String) (s : Fields)
    → bind_tasks_abort (abort_call c why s).params ≡ Bound.call (Request.tasks_abort c why s)
unfolding bind_tasks_abort abort_call accepts
abort_binds c why s = refl

post_binds :
    (t : TaskDescriptor) (e : String) (s : Option Fields)
    → bind_tasks_post (post_call t e s).params
      ≡ Bound.call (Request.tasks_post (task_to_dict t) e end)
unfolding bind_tasks_post post_call
post_binds t e none = refl
post_binds t e (some s) = refl

subscribe_binds :
    (me : Identity) (f : Option Fields) (r : Option ℤ)
    → bind_capabilities_subscribe (subscribe_call me f r).params
      ≡ Bound.call (Request.capabilities_subscribe me.did f r)
unfolding bind_capabilities_subscribe subscribe_call accepts
subscribe_binds me none none = refl
subscribe_binds me none (some r) = refl
subscribe_binds me (some f) none = refl
subscribe_binds me (some f) (some r) = refl

-- `publish_capabilities` gives `capabilities/list` a keyword that the method does not take: whatever
-- the descriptor, the call is a TypeError.
pub publish_refused :
    (me : Identity) (now : String) (d : CapabilityDescriptor)
    → bind_capabilities_list (publish_capabilities me now d).params ≡ Bound.type_error
unfolding bind_capabilities_list publish_capabilities accepts
publish_refused me now d = refl

-- what the dispatcher binds the parameters of the call with, under the call's method
abbrev bind_with : Option (Fields → Bound) → Fields → Option Bound
bind_with none params = none
bind_with (some bind) params = some (bind params)

abbrev pub binding : Call → Option Bound
binding call = bind_with (method_of call.method) call.params

-- Of the calls of the SDK's sessions, eight name a method of the dispatcher that binds them to the
-- request that they mean: the identifiers, the texts, the signatures, the evidence, the snapshot of
-- an abort, a bid, a filter and a revision arrive as they were given, while a compensating action,
-- the supervision of a post and the snapshot of a supervise are dropped. The ninth,
-- `publish_capabilities`, is a TypeError, whatever the descriptor.
pub calls_bind :
    (py : Platform) (me : Identity) (task claim eta now why urgency expiry kind : String)
    (bid : Option String) (payload snapshot : Fields) (evidence : List AttestationEvidence)
    (action filter supervision : Option Fields) (revision : Option ℤ) (descriptor : TaskDescriptor)
    (capability : CapabilityDescriptor)
    → (binding (claim_call py me task eta bid now)
        ≡ some (
            Bound.call
              (Request.tasks_claim task me.did eta (acceptance_of py me task eta bid now) bid)))
      × (binding (execute_call claim) ≡ some (Bound.call (Request.tasks_execute claim)))
      × (binding (event_call py me claim kind payload now)
          ≡ some (
              Bound.call (
                Request.tasks_execute_event claim kind now payload
                  (sign py me (obj (event_canonical claim kind payload now))))))
      × (binding (attest_call claim evidence action)
          ≡ some (Bound.call (Request.tasks_attest claim (map evidence_to_dict evidence))))
      × (binding (supervise_call claim why snapshot urgency)
          ≡ some (Bound.call (Request.tasks_supervise claim why urgency)))
      × (binding (abort_call claim why snapshot)
          ≡ some (Bound.call (Request.tasks_abort claim why snapshot)))
      × (binding (post_call descriptor expiry supervision)
          ≡ some (Bound.call (Request.tasks_post (task_to_dict descriptor) expiry end)))
      × (binding (subscribe_call me filter revision)
          ≡ some (Bound.call (Request.capabilities_subscribe me.did filter revision)))
      × (binding (publish_capabilities me now capability) ≡ some Bound.type_error)
unfolding method_of claim_call execute_call event_call attest_call supervise_call abort_call
    post_call subscribe_call publish_capabilities
calls_bind py me task claim eta now why urgency expiry kind bid payload snapshot evidence action
      filter supervision revision descriptor capability =
    (
      ap some (claim_binds py me task eta bid now),
      ap some (execute_binds claim),
      ap some (event_binds py me claim kind payload now),
      ap some (attest_binds claim evidence action),
      ap some (supervise_binds claim why snapshot urgency),
      ap some (abort_binds claim why snapshot),
      ap some (post_binds descriptor expiry supervision),
      ap some (subscribe_binds me filter revision),
      ap some (publish_refused me now capability),
    )
