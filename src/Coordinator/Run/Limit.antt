-- ===== src/Coordinator/Run/Limit.antt =====
-- The concurrency limit in every state that a generation of the coordinator reaches.
use ypi.Prelude.{
  ℕ, ◌≤◌, ◌≡◌, ◌⊎◌, inl, inr, Bool, Option, none, some, List, [], ◌∷◌, Text, length, Option-cases,
  arith,
}
use ypi.Coordinator.Protocol.{
  Result, ok, err, Result-cases, Line, Request, Operation, allocate_call, operation_of, value,
  failed, fatal, fault, unknown_operation, authority_terminal,
}
use ypi.Coordinator.State.{Slots, Queued, terminal}
use ypi.Coordinator.Calls
use ypi.Coordinator.Calls.{CounterFiles, Calls}
use ypi.Coordinator.Handler.{
  Coordinator, dispatch, handle_request, authenticate_request, answer_call,
}
use ypi.Coordinator.Generation.{
  start_local_coordinator, refuse_all, mark_terminal, on_listening, on_server_error,
}
use ypi.Coordinator.Bound.{limit_of, IsBounded, respond-IsBounded}
use ypi.Coordinator.Bound.Events.{
  handle_slots-IsBounded, on_acknowledgement-IsBounded, on_timeout-IsBounded, on_close-IsBounded,
}
use ypi.Coordinator.Run.{
  Event, request, acknowledgement, timeout, closed, listening, ended, server_error, step, Reach,
  here, next,
}
use ypi.Coordinator.Run.Fixed.{Keeps, step-Keeps}

-- What is bound stays bound to the same.
abbrev pub IsKept : Option ℕ → Option ℕ → Type 0
IsKept none later = Unit {0}
IsKept (some m) later = later ≡ some m

refuse_all-IsBounded : (qs : List Queued) (s : Slots) → IsBounded s → IsBounded (refuse_all qs s)
unfolding refuse_all
refuse_all-IsBounded [] s b = record { within = b.within }
refuse_all-IsBounded (q ∷ qs) s b =
    refuse_all-IsBounded qs _ (respond-IsBounded q.socket (failed (fatal authority_terminal)) s b)

module _ (probe : ℕ → Option Text) (files : CounterFiles) where
  open files use {Disk}

  dispatch-IsBounded :
      (o : Operation) (socket : ℕ) (r : Request) (c : Coordinator) (disk : Disk)
      → IsBounded c.slots
      → IsBounded (dispatch probe files o socket r c disk).0.slots
  unfolding dispatch
  dispatch-IsBounded allocate_call socket r c disk b =
      answered (Calls.allocate_call files disk c.calls r)
    where
      answered :
          (a : (Calls × Disk) × Result ℕ) → IsBounded (answer_call probe files socket c a).0.slots
      answered ((calls, d), ok n) = respond-IsBounded socket (value n) c.slots b
      answered ((calls, d), err e) = respond-IsBounded socket (failed e) c.slots b
  dispatch-IsBounded o socket r c disk b = handle_slots-IsBounded probe socket r c.slots b o

  handle_request-IsBounded :
      (socket : ℕ) (line : Line) (c : Coordinator) (disk : Disk)
      → IsBounded c.slots
      → IsBounded (handle_request probe files socket line c disk).0.slots
  unfolding handle_request
  handle_request-IsBounded socket line c disk b =
      elim (Result-cases (authenticate_request probe c line)) [
        | inr (e, threw) ↦
            rw (threw, handle_request) (respond-IsBounded socket (failed e) c.slots b)
        | inl (r, known) ↦ elim (Option-cases (operation_of r.operation)) [
          | inl other ↦
              rw (known, other, handle_request)
                (respond-IsBounded socket (failed (fault unknown_operation)) c.slots b)
          | inr (o, named) ↦
              rw (known, named, handle_request) (dispatch-IsBounded o socket r c disk b)
        ]
      ]

mark_terminal-IsBounded :
    (probe : ℕ → Option Text) (self : ℕ) (written : Bool) (s : Slots)
    → IsBounded s
    → IsBounded (mark_terminal probe self written s).0
unfolding mark_terminal
mark_terminal-IsBounded probe self written s b = ground (
  arith,
  refuse_all-IsBounded s.queue (record s { status = terminal }) (record { within = b.within }),
)

module _ (self : ℕ) (files : CounterFiles) where
  open files use {Disk}

  -- Every callback keeps the number of active slots under the bound limit.
  pub step-IsBounded :
      (probe : ℕ → Option Text) (event : Event) (c : Coordinator) (disk : Disk)
      → IsBounded c.slots
      → IsBounded (step self files probe event c disk).0.slots
  unfolding step on_listening on_server_error
  step-IsBounded probe (request socket line) c disk b =
      handle_request-IsBounded probe files socket line c disk b
  step-IsBounded probe (acknowledgement socket ack) c disk b =
      on_acknowledgement-IsBounded probe socket ack c.slots b
  step-IsBounded probe (timeout socket) c disk b = on_timeout-IsBounded probe socket c.slots b
  step-IsBounded probe (closed socket) c disk b = on_close-IsBounded probe socket c.slots b
  step-IsBounded probe (listening written) c disk b = ground arith
  step-IsBounded probe (ended written) c disk b =
      mark_terminal-IsBounded probe self written c.slots b
  step-IsBounded probe server_error c disk b = ground (
    arith,
    refuse_all-IsBounded c.slots.queue (record c.slots { status = terminal })
        (record { within = b.within }),
  )

  -- From one state that a generation reaches to a later one, a bound limit stays the same.
  Reach-Keeps :
      (m : ℕ) {c later : Coordinator}
      → Keeps m c.slots
      → Reach self files c later
      → Keeps m later.slots
  Reach-Keeps m k here = k
  Reach-Keeps m k (next {c} r probe event disk) =
      step-Keeps m self files probe event c disk (Reach-Keeps m k r)

  Reach-within :
      {start c : Coordinator} → IsBounded start.slots → Reach self files start c → IsBounded c.slots
  Reach-within b here = b
  Reach-within b (next {c} r probe event disk) =
      step-IsBounded probe event c disk (Reach-within b r)

  fresh-IsBounded :
      (generation secret : Text) (counter_env : Option Text) (previous : Option Coordinator)
      → IsBounded (start_local_coordinator generation secret counter_env previous).slots
  unfolding start_local_coordinator
  fresh-IsBounded generation secret counter_env previous = record { within = omega arith }

  -- However requests, acknowledgements, timeouts, closes and deaths of processes interleave, a
  -- limit that is bound in a state that a generation reaches is the limit of every later state,
  -- and no state has more active slots than its limit, nor any before a limit is bound.
  pub Reach-IsBounded :
      (generation secret : Text) (counter_env : Option Text) (previous : Option Coordinator)
      {c later : Coordinator}
      → Reach self files (start_local_coordinator generation secret counter_env previous) c
      → Reach self files c later
      → IsKept c.slots.maximum later.slots.maximum
        × (length later.slots.active ≤ limit_of later.slots.maximum)
  Reach-IsBounded generation secret counter_env previous {c} {later} r more = (
    kept (Option-cases c.slots.maximum),
    (Reach-within (Reach-within (fresh-IsBounded generation secret counter_env previous) r)
        more).within,
  )
    where
      kept :
          (c.slots.maximum ≡ none) ⊎ ((m : ℕ) × (c.slots.maximum ≡ some m))
          → IsKept c.slots.maximum later.slots.maximum
      kept (inl unbound) = rw unbound tt
      kept (inr (m, bound)) = rw bound (Reach-Keeps m bound more)
