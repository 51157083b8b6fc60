-- ===== src/Coordinator/Generation.antt =====
-- Generations of the root authority: `startLocalCoordinator`, `markLocalCoordinatorTerminal`,
-- `ensureRootTreeCoordinator`, `beginRootTreeCoordinator` and `terminateRootTreeCoordinator` of
-- extensions/ypi/internal/tree-coordinator.ts. Credentials, the clock and whether a write of the
-- authority manifest succeeds are arguments.
use ypi.Prelude.{
  ℕ, zero, suc, Bool, true, false, Option, none, some, List, [], ◌∷◌, ◌++◌, Text, codes,
  if◌then◌else◌, not, keep, ◌&&◌, ◌||◌, ◌==◌,
}
use ypi.Process.{nat, process_matches_start_identity}
use ypi.Coordinator.Protocol.{fatal, authority_terminal, failed}
use ypi.Coordinator.State.{
  Status, starting, active, terminal, Slot, Queued, Slots, initial_slots, respond,
}
use ypi.Coordinator.Calls.{Calls, is_some_text}
use ypi.Coordinator.Handler.{Coordinator}

-- `reason.replace(/[\r\n]+/g, " ").slice(0, 200) || "terminal"`.
unfoldable pub flatten_lines : Bool → Text → Text
flatten_lines in_run [] = []
flatten_lines in_run (c ∷ cs) =
    let broken = if in_run then flatten_lines true cs else b' ' ∷ flatten_lines true cs in
    let plain = c ∷ flatten_lines false cs in if c == 13 || c == 10 then broken else plain

unfoldable pub slice : ℕ → Text → Text
slice zero t = []
slice (suc n) [] = []
slice (suc n) (c ∷ cs) = c ∷ slice n cs

abbrev or_terminal : Text → Text
or_terminal [] = codes "terminal"
or_terminal (c ∷ cs) = c ∷ cs

unfoldable pub bounded_reason : Text → Text
unfolding flatten_lines slice
bounded_reason reason = or_terminal (slice 200 (flatten_lines false reason))

-- Every waiting request is told that the authority is gone.
unfoldable pub refuse_all : List Queued → Slots → Slots
refuse_all [] s = record s { queue = [] }
refuse_all (q ∷ qs) s = refuse_all qs (respond q.socket (failed (fatal authority_terminal)) s)

abbrev pub is_terminal : Status → Bool
is_terminal starting = false
is_terminal active = false
is_terminal terminal = true

-- `Map.set` on the groups, whose later entry for a number replaces the identity in place.
unfoldable pub set_group : ℕ → Text → List (ℕ × Text) → List (ℕ × Text)
set_group pid identity [] = (pid, identity) ∷ []
set_group pid identity ((n, t) ∷ gs) =
    if n == pid then (pid, identity) ∷ gs else (n, t) ∷ set_group pid identity gs

-- The active slots and then the suspended ones.
abbrev pub controlled_slots : Slots → List Slot
controlled_slots s = s.active ++ s.suspended

module _ (probe : ℕ → Option Text) (self : ℕ) where
  -- The registered child of a slot, if it is another live process than the root.
  unfoldable pub signal_target : Slot → Option (ℕ × Text)
  signal_target slot = elim slot.child_pid [
    | none ↦ none
    | some pid ↦ elim slot.child_process_identity [
      | none ↦ none
      | some identity ↦
          if not (pid == 0)
            && not (pid == self)
            && process_matches_start_identity probe (some (nat pid)) (some identity)
          then some (pid, identity)
          else none
    ]
  ]

  unfoldable pub signal_groups : List Slot → List (ℕ × Text) → List (ℕ × Text)
  unfolding signal_target set_group
  signal_groups [] groups = groups
  signal_groups (slot ∷ slots) groups = signal_groups slots (elim (signal_target slot) [
    | none ↦ groups
    | some (pid, identity) ↦ set_group pid identity groups
  ])

  -- The slots after the authority ends, and the child groups that get SIGTERM. Where the manifest
  -- cannot be written the exception leaves only the status changed.
  unfoldable pub mark_terminal : Bool → Slots → Slots × List (ℕ × Text)
  unfolding refuse_all signal_groups
  mark_terminal written s =
      if is_terminal s.status
      then (s, [])
      else if written
      then (
        refuse_all s.queue (record s { status = terminal }),
        signal_groups (controlled_slots s) [],
      )
      else (record s { status = terminal }, [])

  -- The first controlled slot with this child decides whether it gets SIGKILL after the grace time.
  unfoldable pub find_child : ℕ → List Slot → Option Slot
  find_child pid [] = none
  find_child pid (slot ∷ slots) = elim slot.child_pid [
    | none ↦ find_child pid slots
    | some n ↦ if n == pid then some slot else find_child pid slots
  ]

  unfoldable pub survives : Slots → ℕ → Bool
  unfolding find_child
  survives s pid = elim (find_child pid (controlled_slots s)) [
    | none ↦ false
    | some slot ↦ process_matches_start_identity probe (some (nat pid)) slot.child_process_identity
  ]

  unfoldable pub kill_survivors : Slots → List (ℕ × Text) → List (ℕ × Text)
  unfolding survives
  kill_survivors s groups = keep (λ (g : ℕ × Text). survives s g.0) groups

-- A new generation starts with no slot, no waiter and no limit. It keeps the counter of the one
-- before only if that counted into the same file.
unfoldable pub inherited_calls : Option Text → Option Coordinator → Calls
inherited_calls counter_env none = record {
  max_calls = none;
  call_count = 0;
  counter_file = none;
  counter = none;
}
inherited_calls counter_env (some previous) = elim counter_env [
  | none ↦ record { max_calls = none; call_count = 0; counter_file = none; counter = none }
  | some file ↦ elim previous.calls.counter [
    | none ↦ record { max_calls = none; call_count = 0; counter_file = none; counter = none }
    | some known ↦
        if is_some_text previous.calls.counter_file file
        then record {
          max_calls = none;
          call_count = 0;
          counter_file = some file;
          counter = some known;
        }
        else record { max_calls = none; call_count = 0; counter_file = none; counter = none }
  ]
]

unfoldable pub start_local_coordinator :
    Text → Text → Option Text → Option Coordinator → Coordinator
unfolding initial_slots inherited_calls
start_local_coordinator generation secret counter_env previous = record {
  generation = generation;
  secret = secret;
  slots = initial_slots;
  calls = inherited_calls counter_env previous;
}

-- The callback of `listen`: the socket is open, and the manifest says so, unless the coordinator
-- ended before or the manifest could not be written.
unfoldable pub on_listening : Bool → Slots → Slots
on_listening written s =
    if is_terminal s.status then s else record s { status = if written then active else terminal }

-- The server's own failure after it started; the manifest is rewritten where that is possible.
unfoldable pub on_server_error : Slots → Slots
unfolding refuse_all
on_server_error s =
    if is_terminal s.status then s else refuse_all s.queue (record s { status = terminal })
