-- ===== src/Coordinator/Client/Requests.antt =====
-- The requests that extensions/ypi/internal/tree-coordinator.ts exports, from
-- `assertTreeCoordinatorActive` to `registerCoordinatedLaunch`, and `acceptConnection`, which cuts
-- a request line out of what arrives.
use ypi.Prelude.{ℕ, Option, none, some, List, [], ◌∷◌, ◌++◌, Text, if◌then◌else◌, ltb, leb, ◌&&◌}
use ypi.Process.{Number, max_safe_integer, process_start_identity}
use ypi.Coordinator.Protocol.{
  Value, undefined, num, str, Operation, check, allocate_call, acquire_slot, release_slot,
  suspend_slot, resume_slot, register_launch,
}
use ypi.Coordinator.Client.{Reply}
use ypi.Coordinator.Client.Waiting.{lines, max_protocol_bytes}

-- The operation and the fields that a request adds to the caller's identity.
pub record Sent : Type 0 where
  pub operation : Operation
  pub token : Option Text
  pub maximum : Value
  pub seed_call_count : Value
  pub counter_file : Option Text
  pub child_pid : Value
  pub child_process_identity : Value

abbrev plain : Operation → Option Text → Sent
plain operation token = record {
  operation = operation;
  token = token;
  maximum = undefined;
  seed_call_count = undefined;
  counter_file = none;
  child_pid = undefined;
  child_process_identity = undefined;
}

unfoldable pub assert_tree_coordinator_active : Sent
assert_tree_coordinator_active = plain check none

unfoldable pub allocate_coordinated_call : Number → Number → Text → Sent
allocate_coordinated_call maximum seed counter_file = record (plain allocate_call none) {
  maximum = num maximum;
  seed_call_count = num seed;
  counter_file = some counter_file;
}

-- The number that an answer to that request has to bring; `none` where the code throws.
unfoldable pub allocated_number : Reply → Option ℕ
allocated_number r = elim r.value [
  | none ↦ none
  | some n ↦ if ltb 0 n && leb n max_safe_integer then some n else none
]

unfoldable pub acquire_coordinated_slot : Text → Number → Sent
acquire_coordinated_slot token maximum = record (plain acquire_slot (some token)) {
  maximum = num maximum;
}

unfoldable pub release_coordinated_slot : Text → Sent
release_coordinated_slot token = plain release_slot (some token)

unfoldable pub suspend_coordinated_slot : Text → Sent
suspend_coordinated_slot token = plain suspend_slot (some token)

unfoldable pub resume_coordinated_slot : Text → Number → Sent
resume_coordinated_slot token maximum = record (plain resume_slot (some token)) {
  maximum = num maximum;
}

-- `none` where no stable identity of the child is known, an empty one included.
unfoldable pub register_coordinated_launch : (ℕ → Option Text) → Text → Number → Option Sent
register_coordinated_launch probe token child_pid = elim (process_start_identity probe child_pid) [
  | none ↦ none
  | some [] ↦ none
  | some (c ∷ cs) ↦ some (record (plain register_launch (some token)) {
    child_pid = num child_pid;
    child_process_identity = str (c ∷ cs);
  })
]

-- What `acceptConnection` makes of the data so far.
pub data Framed : Type 0 where
  too_long : Framed
  incomplete : Text → Framed
  line : Text → Framed

abbrev first_line : List Text → Text → Framed
first_line [] input = incomplete input
first_line (l ∷ ls) input = line l

unfoldable pub accept_data : (Text → ℕ) → Text → Text → Framed
accept_data byte_length input chunk =
    if ltb max_protocol_bytes (byte_length (input ++ chunk))
    then too_long
    else first_line (lines (input ++ chunk)).0 (input ++ chunk)
