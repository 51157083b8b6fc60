-- ===== src/Coordinator/Tests.antt =====
-- Runs of one generation: a process is alive under one identity, and one private file is kept.
mod OneFile
use ypi.Prelude.{
  ℕ, ◌≤◌, ◌≡◌, refl, ◌⊎◌, true, false, Option, none, some, List, [], ◌∷◌, ◌++◌, Text, codes,
  text_eq, length,
}
use ypi.Process.{nat}
use ypi.Coordinator.Protocol.{undefined, num, str, object, Fields, Request}
use ypi.Coordinator.State.{terminal, active, Slots, Slot, Queued, initial_slots, get, has}
use ypi.Coordinator.Calls.{
  Calls, allocate_call, call_inputs, require_counter_file, bind_calls, count_call, count_written,
  write_counter,
}
use ypi.Coordinator.Handler.{Coordinator, handle_slots, request_slot}
use ypi.Coordinator.Generation.{start_local_coordinator}
use ypi.Coordinator.Run.{Event, request, listening, closed, ended, step, here, next}
use ypi.Coordinator.Bound.{limit_of}
use ypi.Coordinator.Run.Limit.{IsKept, Reach-IsBounded}
use ypi.Coordinator.Run.Terminal.{step-terminal}
use ypi.Coordinator.Fairness.{answered, answers_to, drain_queue-answers}
use ypi.Coordinator.Offers.{revoke-grant}
use ypi.Coordinator.Calls.Counting.{allocations, Follows, allocations-Follows}
use ypi.Coordinator.State.{Grant}
use ypi.Process.{process_matches_start_identity, process_start_identity}
use ypi.Coordinator.Protocol.{
  operation_of, require_slot_token, exact_positive_integer, exact_non_negative_integer,
}
use ypi.Coordinator.State.{put, delete, is_destroyed, respond, destroy}
use ypi.Coordinator.Slots.{
  bind_maximum, new_slot, take_slot, grant, grant_slot, remove_queued_socket, serve, drain_loop,
  slot_process_alive, prune_dead_slots, drain_at, drain_queue, revoke, rollback,
}
use ypi.Coordinator.Grants.{find_grant, on_close}
use ypi.Coordinator.Handler.{handle_request, authenticate_request, typed_request, dispatch, fail}
use ypi.Coordinator.Generation.{inherited_calls, on_listening}
use ypi.Coordinator.Tests.OneFile.{one_file}

-- Process 7 lives under "linux:7", whatever number is asked for.
abbrev alive : ℕ → Option Text
alive pid = some (codes "linux:7")

abbrev nobody : ℕ → Option Text
nobody pid = none

abbrev token_a : Text
token_a = codes "0123456789abcdef0123456789abcdef"

abbrev token_b : Text
token_b = codes "abcdefabcdefabcdefabcdefabcdef00"

abbrev root_fields : Text → Text → Fields
root_fields operation token = record {
  schema_version = num (nat 1);
  generation = str (codes "g");
  secret = str (codes "s");
  operation = str operation;
  pid = num (nat 7);
  process_identity = str (codes "linux:7");
  token = some token;
  child_pid = undefined;
  child_process_identity = undefined;
  maximum = num (nat 1);
  seed_call_count = undefined;
  counter_file = none;
}

abbrev fresh : Coordinator
fresh = start_local_coordinator (codes "g") (codes "s") none none

abbrev run : Event → Coordinator → Coordinator
run event c = (step 1 one_file alive event c (none, 0)).0

abbrev opened : Coordinator
opened = run (listening true) fresh

abbrev first : Coordinator
first = run (request 10 (object (root_fields (codes "acquire-slot") token_a))) opened

abbrev second : Coordinator
second = run (request 11 (object (root_fields (codes "acquire-slot") token_b))) first

abbrev freed : Coordinator
freed = run (closed 10) second

abbrev over : Coordinator
over = run (ended true) second

-- The second request waits for the only slot, and gets it when the first connection closes.
counts :
    (length second.slots.active ≡ 1)
    × (length second.slots.queue ≡ 1)
    × (length freed.slots.queue ≡ 0)
unfolding step handle_request authenticate_request typed_request text_eq
    process_matches_start_identity process_start_identity on_listening operation_of dispatch
    handle_slots request_slot bind_maximum exact_positive_integer exact_non_negative_integer
    require_slot_token prune_dead_slots slot_process_alive grant_slot grant take_slot new_slot put
    get has delete is_destroyed respond destroy fail start_local_coordinator initial_slots
    inherited_calls on_close remove_queued_socket find_grant rollback revoke drain_queue drain_at
    drain_loop serve
counts = (refl, refl, refl)

-- The first request binds the limit, and the state behind the close of its connection keeps it.
Reach-IsBounded_example :
    IsKept first.slots.maximum freed.slots.maximum
    × (length freed.slots.active ≤ limit_of freed.slots.maximum)
Reach-IsBounded_example =
    Reach-IsBounded 1 one_file (codes "g") (codes "s") none none
      (next (next here alive (listening true) (none, 0)) alive
        (request 10 (object (root_fields (codes "acquire-slot") token_a))) (none, 0))
      (next
        (next here alive (request 11 (object (root_fields (codes "acquire-slot") token_b)))
          (none, 0))
        alive (closed 10) (none, 0))

abbrev slot_a : Slot
slot_a = record {
  serial = 0;
  token = token_a;
  owner_pid = 7;
  owner_process_identity = codes "linux:7";
  child_pid = none;
  child_process_identity = none;
}

abbrev ended_state : Coordinator
ended_state = record opened {
  slots = record initial_slots { status = terminal; active = slot_a ∷ [] };
}

abbrev caller : Text → Request
caller token = record {
  operation = codes "acquire-slot";
  pid = 7;
  process_identity = codes "linux:7";
  token = some token;
  child_pid = undefined;
  child_process_identity = undefined;
  maximum = num (nat 1);
  seed_call_count = num (nat 0);
  counter_file = some (codes "/tmp/calls");
}

abbrev waiting : Slots
waiting = record initial_slots {
  status = active;
  active = slot_a ∷ [];
  queue = record { socket = 11; request = caller token_b; resume = false } ∷ [];
  maximum = some 1;
  next_serial = 1;
}

step-terminal_example :
    ((step 1 one_file alive
        (request 12 (object (root_fields (codes "acquire-slot") token_b)))
        ended_state
        (none, 0)).0.slots.status
      ≡ terminal)
    × ((t : Text)
        → has t
            (step 1 one_file alive
              (request 12 (object (root_fields (codes "acquire-slot") token_b)))
              ended_state
              (none, 0)).0.slots.active
          ≡ true
        → has t ended_state.slots.active ≡ true)
    × ((step 1 one_file alive
          (request 12 (object (root_fields (codes "acquire-slot") token_b)))
          ended_state
          (none, 0)).0.calls
        ≡ ended_state.calls)
    × ((step 1 one_file alive
          (request 12 (object (root_fields (codes "acquire-slot") token_b)))
          ended_state
          (none, 0)).1
        ≡ (none, 0))
unfolding initial_slots
step-terminal_example =
    step-terminal 1 one_file alive
      (request 12 (object (root_fields (codes "acquire-slot") token_b))) ended_state (none, 0) refl

drain_queue-answers_example :
    (served : List Queued) × (waiting.queue ≡ served ++ (drain_queue nobody waiting).queue)
    × (answered (drain_queue nobody waiting)
        ≡ answers_to waiting.destroyed served (answered waiting))
    × (((drain_queue nobody waiting).queue ≡ []) ⊎ (1 ≤ length (drain_queue nobody waiting).active))
unfolding initial_slots
drain_queue-answers_example = drain_queue-answers nobody waiting 1 refl refl

abbrev slot_b : Slot
slot_b = record slot_a { serial = 1; token = token_b }

-- The second token resumes its suspended slot.
abbrev yielded : Slots
yielded = record waiting { suspended = slot_b ∷ []; next_serial = 2 }

abbrev resumed_b : Slots
resumed_b = grant yielded 12 (caller token_b) true token_b

abbrev grant_b : Grant
grant_b = record {
  socket = 12;
  token = token_b;
  serial = 2;
  suspended = some slot_b;
  acknowledged = false;
  timer = true;
}

revoke-grant_example :
    ((revoke grant_b resumed_b).active ≡ yielded.active)
    × (get token_b (revoke grant_b resumed_b).suspended ≡ get token_b yielded.suspended)
unfolding has get text_eq initial_slots grant take_slot respond is_destroyed
revoke-grant_example = revoke-grant yielded 12 (caller token_b) token_b true grant_b [] refl refl

abbrev counted : Calls
counted = record {
  max_calls = some 2;
  call_count = 0;
  counter_file = some (codes "/tmp/calls");
  counter = none;
}

abbrev call : ℕ → Request
call maximum = record (caller token_a) {
  operation = codes "allocate-call";
  maximum = num (nat maximum);
}

-- The first write throws, and a later request is counted all the same.
retried :
    allocations one_file (none, 1) counted (call 2 ∷ call 3 ∷ call 2 ∷ call 2 ∷ []) ≡ 1 ∷ 2 ∷ []
unfolding allocations allocate_call call_inputs require_counter_file exact_non_negative_integer
    bind_calls count_call count_written write_counter text_eq
retried = refl

allocations-Follows_example :
    Follows 0 2 (allocations one_file (none, 1) counted (call 2 ∷ call 3 ∷ call 2 ∷ call 2 ∷ []))
allocations-Follows_example =
    allocations-Follows one_file (call 2 ∷ call 3 ∷ call 2 ∷ call 2 ∷ []) (none, 1) counted 2 refl
