-- ===== src/Coordinator/Handler.antt =====
-- `authenticateRequest` and `handleRequest` of extensions/ypi/internal/tree-coordinator.ts.
pub mod Cases
use ypi.Prelude.{
  ℕ, Bool, true, false, Option, none, some, [], ◌∷◌, ◌++◌, Text, text_eq, if◌then◌else◌, ◌&&◌, ◌||◌,
  ◌==◌, ltb, length,
}
use ypi.Process.{nat, positive_integer, process_matches_start_identity}
use ypi.Coordinator.Protocol.{
  Value, num, str, Result, ok, err, fault, fatal, Line, malformed, not_object, object, Fields,
  Request, Operation, check, allocate_call, acquire_slot, release_slot, suspend_slot, resume_slot,
  register_launch, operation_of, done, value, failed, malformed_json, request_not_object,
  request_identity_invalid, authority_terminal, slot_unavailable, not_slot_owner,
  launch_slot_unavailable, launch_identity_invalid, unknown_operation, require_slot_token,
}
use ypi.Coordinator.State.{active, Slot, Slots, get, delete, put, respond}
use ypi.Coordinator.Slots.{bind_maximum, grant_slot, is_active, prune_dead_slots, drain_queue}
use ypi.Coordinator.Grants.{is_protocol_version, is_text}
use ypi.Coordinator.Calls
use ypi.Coordinator.Calls.{CounterFiles, Calls}

-- The generation's credentials, its slots and its call accounting.
pub record Coordinator : Type 0 where
  pub generation : Text
  pub secret : Text
  pub slots : Slots
  pub calls : Calls

abbrev value_pid : Value → Option ℕ
value_pid (num n) = positive_integer n
value_pid _ = none

abbrev value_text : Value → Option Text
value_text (str t) = some t
value_text _ = none

-- The request, if its number, its identity and its operation have the types that the code tests.
unfoldable pub typed_request : Fields → Option Request
typed_request f = elim (value_pid f.pid) [
  | none ↦ none
  | some pid ↦ elim (value_text f.process_identity) [
    | none ↦ none
    | some identity ↦ elim (value_text f.operation) [
      | none ↦ none
      | some operation ↦ some (record {
        operation = operation;
        pid = pid;
        process_identity = identity;
        token = f.token;
        child_pid = f.child_pid;
        child_process_identity = f.child_process_identity;
        maximum = f.maximum;
        seed_call_count = f.seed_call_count;
        counter_file = f.counter_file;
      })
    ]
  ]
]

abbrev is_pid : Option ℕ → ℕ → Bool
is_pid none n = false
is_pid (some m) n = m == n

abbrev is_identity : Option Text → Text → Bool
is_identity none t = false
is_identity (some u) t = text_eq u t

-- Whether `request` comes from the slot's owner or from its registered child.
unfoldable pub is_slot_party : Slot → Request → Bool
is_slot_party slot request =
    (slot.owner_pid == request.pid && text_eq slot.owner_process_identity request.process_identity)
    || (is_pid slot.child_pid request.pid
        && is_identity slot.child_process_identity request.process_identity)

unfoldable pub fail : ℕ → Slots → Result Slots → Slots
fail socket s (ok s') = s'
fail socket s (err e) = respond socket (failed e) s

module _ (probe : ℕ → Option Text) where
  unfoldable pub authenticate_request : Coordinator → Line → Result Request
  authenticate_request c malformed = err (fault malformed_json)
  authenticate_request c not_object = err (fault request_not_object)
  authenticate_request c (object f) =
      if is_protocol_version f.schema_version
        && is_text c.generation f.generation
        && is_text c.secret f.secret
      then elim (typed_request f) [
        | none ↦ err (fatal request_identity_invalid)
        | some request ↦
            if process_matches_start_identity probe (some (nat request.pid))
              (some request.process_identity)
            then if is_active c.slots.status then ok request else err (fatal authority_terminal)
            else err (fatal request_identity_invalid)
      ]
      else err (fatal request_identity_invalid)

  -- "acquire-slot" and "resume-slot": a free slot is granted at once, and without one the request
  -- waits. The bound limit and the pruning stay where the grant is refused.
  unfoldable pub request_slot : ℕ → Request → Bool → Slots → Slots
  request_slot socket request resume s = elim (bind_maximum s request) [
    | err e ↦ respond socket (failed e) s
    | ok (limit, bound) ↦
        let pruned = prune_dead_slots probe bound in
        if ltb (length pruned.active) limit
        then fail socket pruned (grant_slot pruned socket request resume)
        else record pruned {
          queue =
              pruned.queue ++ record { socket = socket; request = request; resume = resume } ∷ [];
        }
  ]

  unfoldable pub release : ℕ → Request → Slots → Slots
  release socket request s = elim (require_slot_token request) [
    | err e ↦ respond socket (failed e) s
    | ok token ↦ drain_queue probe (
        respond socket done
          (record s { active = delete token s.active; suspended = delete token s.suspended }))
  ]

  unfoldable pub suspend : ℕ → Request → Slots → Slots
  suspend socket request s = elim (require_slot_token request) [
    | err e ↦ respond socket (failed e) s
    | ok token ↦ elim (get token s.active) [
      | none ↦ respond socket (failed (fault slot_unavailable)) s
      | some slot ↦
          if is_slot_party slot request
          then drain_queue probe (
              respond socket done
                (record s { active = delete token s.active; suspended = put slot s.suspended }))
          else respond socket (failed (fault not_slot_owner)) s
    ]
  ]

  -- The child that a launch names, if it is alive under the identity given.
  unfoldable pub launch_child : Request → Option (ℕ × Text)
  launch_child request = elim (value_pid request.child_pid) [
    | none ↦ none
    | some pid ↦ elim (value_text request.child_process_identity) [
      | none ↦ none
      | some identity ↦
          if process_matches_start_identity probe (some (nat pid)) (some identity)
          then some (pid, identity)
          else none
    ]
  ]

  unfoldable pub register : ℕ → Request → Slots → Slots
  register socket request s = elim (require_slot_token request) [
    | err e ↦ respond socket (failed e) s
    | ok token ↦ elim (get token s.active) [
      | none ↦ respond socket (failed (fatal launch_slot_unavailable)) s
      | some slot ↦ elim (launch_child request) [
        | none ↦ respond socket (failed (fatal launch_identity_invalid)) s
        | some (pid, identity) ↦ respond socket done (record s {
          active =
              put (record slot { child_pid = some pid; child_process_identity = some identity })
                s.active;
        })
      ]
    ]
  ]

  -- The operations on slots; `allocate-call` is handled with the counter file below.
  unfoldable pub handle_slots : Operation → ℕ → Request → Slots → Slots
  handle_slots check socket request s = respond socket done s
  handle_slots acquire_slot socket request s = request_slot socket request false s
  handle_slots resume_slot socket request s = request_slot socket request true s
  handle_slots release_slot socket request s = release socket request s
  handle_slots suspend_slot socket request s = suspend socket request s
  handle_slots register_launch socket request s = register socket request s
  handle_slots allocate_call socket request s = s

  module _ (files : CounterFiles) where
    open files use {Disk}

    abbrev pub answer_call : ℕ → Coordinator → (Calls × Disk) × Result ℕ → Coordinator × Disk
    answer_call socket c ((calls, disk), ok n) =
        (record c { calls = calls; slots = respond socket (value n) c.slots }, disk)
    answer_call socket c ((calls, disk), err e) =
        (record c { calls = calls; slots = respond socket (failed e) c.slots }, disk)

    unfoldable pub dispatch : Operation → ℕ → Request → Coordinator → Disk → Coordinator × Disk
    dispatch allocate_call socket request c disk =
        answer_call socket c (Calls.allocate_call files disk c.calls request)
    dispatch operation socket request c disk =
        (record c { slots = handle_slots operation socket request c.slots }, disk)

    unfoldable pub handle_request : ℕ → Line → Coordinator → Disk → Coordinator × Disk
    handle_request socket line c disk = elim (authenticate_request c line) [
      | err e ↦ (record c { slots = respond socket (failed e) c.slots }, disk)
      | ok request ↦ elim (operation_of request.operation) [
        | none ↦
            (record c { slots = respond socket (failed (fault unknown_operation)) c.slots }, disk)
        | some operation ↦ dispatch operation socket request c disk
      ]
    ]
