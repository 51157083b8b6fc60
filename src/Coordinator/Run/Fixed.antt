-- ===== src/Coordinator/Run/Fixed.antt =====
-- The limit stays as it was bound, in every callback of the coordinator.
use ypi.Prelude.{
  ℕ, ◌≡◌, refl, ◌∙◌, inl, inr, Bool, true, false, Option, some, List, [], ◌∷◌, Text, Bool-cases,
  Option-cases, arith,
}
use ypi.Coordinator.Protocol.{
  Result, Result-cases, ok, err, Line, Request, Operation, check, allocate_call, acquire_slot,
  release_slot, suspend_slot, resume_slot, register_launch, operation_of, Response, value, done,
  confirmed, failed, fatal, fault, unknown_operation, authority_terminal, maximum_not_integer,
  maximum_not_positive, exact_positive_integer,
}
use ypi.Coordinator.State.{Slots, Queued, Grant, respond, destroy, terminal}
use ypi.Coordinator.State.Maps.{respond_fields}
use ypi.Coordinator.Slots.{
  bind_maximum, grant_slot, remove_queued_socket, drain_at, drain_queue, prune_dead_slots, revoke,
  rollback,
}
use ypi.Coordinator.Grants.{
  Ack, confirms, acknowledge, on_acknowledgement, expire, on_timeout, on_close, find_grant,
  set_grant,
}
use ypi.Coordinator.Calls
use ypi.Coordinator.Calls.{CounterFiles, Calls}
use ypi.Coordinator.Handler.{
  fail, request_slot, handle_slots, Coordinator, dispatch, handle_request, authenticate_request,
  answer_call,
}
use ypi.Coordinator.Handler.Cases.{request_slot_cases, release_cases, suspend_cases, register_cases}
use ypi.Coordinator.Generation.{refuse_all, mark_terminal, on_listening, on_server_error}
use ypi.Coordinator.Bound.{drain_loop-maximum, drain_queue-cases, grant_slot-bounds}
use ypi.Coordinator.Run.{
  Event, request, acknowledgement, timeout, closed, listening, ended, server_error, step,
}

module _ (m : ℕ) where
  -- The limit is bound to `m`.
  abbrev pub Keeps : Slots → Type 0
  Keeps s = s.maximum ≡ some m

  respond-Keeps : (socket : ℕ) (r : Response) (s : Slots) → Keeps s → Keeps (respond socket r s)
  respond-Keeps socket r s k = (respond_fields socket r s).3 ∙ k

  destroy-Keeps : (socket : ℕ) (s : Slots) → Keeps s → Keeps (destroy socket s)
  unfolding destroy
  destroy-Keeps socket s k = ground (arith, k)

  bind_maximum-Keeps :
      (s : Slots) (r : Request) (limit : ℕ) (s' : Slots)
      → bind_maximum s r ≡ ok (limit, s')
      → Keeps s
      → Keeps s'
  unfolding bind_maximum
  bind_maximum-Keeps s r limit s' e k =
      go (exact_positive_integer maximum_not_integer maximum_not_positive r.maximum) refl
    where
      go :
          (x : Result ℕ)
          → exact_positive_integer maximum_not_integer maximum_not_positive r.maximum ≡ x
          → Keeps s'
      go (err f) x = absurd (ground arith)
      go (ok n) x = ground (arith, k)

  fail-Keeps :
      (socket : ℕ) (s : Slots) (r : Request) (resume : Bool)
      → Keeps s
      → Keeps (fail socket s (grant_slot s socket r resume))
  unfolding fail
  fail-Keeps socket s r resume k = elim (Result-cases (grant_slot s socket r resume)) [
    | inl (s', e) ↦ rw (e, fail) ((grant_slot-bounds s socket r resume s' e).1 ∙ k)
    | inr (f, e) ↦ rw (e, fail) (respond-Keeps socket (failed f) s k)
  ]

  refuse_all-Keeps : (qs : List Queued) (s : Slots) → Keeps s → Keeps (refuse_all qs s)
  unfolding refuse_all
  refuse_all-Keeps [] s k = k
  refuse_all-Keeps (q ∷ qs) s k =
      refuse_all-Keeps qs _ (respond-Keeps q.socket (failed (fatal authority_terminal)) s k)

  revoke-Keeps : (g : Grant) (s : Slots) → Keeps s → Keeps (revoke g s)
  unfolding revoke
  revoke-Keeps g s k = k

  module _ (probe : ℕ → Option Text) where
    prune-Keeps : (s : Slots) → Keeps s → Keeps (prune_dead_slots probe s)
    unfolding prune_dead_slots
    prune-Keeps s k = k

    drain_queue-Keeps : (s : Slots) → Keeps s → Keeps (drain_queue probe s)
    unfolding drain_at
    drain_queue-Keeps s k = elim (drain_queue-cases probe s) [
      | inl same ↦ rw same k
      | inr (limit, _, _, e) ↦
          rw e (drain_loop-maximum limit s.queue (prune_dead_slots probe s) ∙ prune-Keeps s k)
    ]

    rollback-Keeps : (g : Grant) (s : Slots) → Keeps s → Keeps (rollback probe g s)
    unfolding rollback
    rollback-Keeps g s k = elim (Bool-cases g.acknowledged) [
      | inl acked ↦ simp acked k
      | inr unconfirmed ↦ simp unconfirmed (drain_queue-Keeps (revoke g s) (revoke-Keeps g s k))
    ]

    module _ (socket : ℕ) (r : Request) (s : Slots) (k : Keeps s) where
      request_slot-Keeps : (resume : Bool) → Keeps (request_slot probe socket r resume s)
      request_slot-Keeps resume =
          request_slot_cases Keeps probe socket r s (λ e. respond-Keeps socket (failed e) s k)
            resume
            (λ limit bound e _.
              fail-Keeps socket _ r resume
                (prune-Keeps bound (bind_maximum-Keeps s r limit bound e k)))
            (λ limit bound e _. prune-Keeps bound (bind_maximum-Keeps s r limit bound e k))

      pub handle_slots-Keeps : (o : Operation) → Keeps (handle_slots probe o socket r s)
      unfolding handle_slots
      handle_slots-Keeps check = respond-Keeps socket done s k
      handle_slots-Keeps acquire_slot = request_slot-Keeps false
      handle_slots-Keeps resume_slot = request_slot-Keeps true
      handle_slots-Keeps release_slot =
          release_cases Keeps probe socket r s (λ e. respond-Keeps socket (failed e) s k)
            (λ token _. drain_queue-Keeps _ (respond-Keeps socket done _ k))
      handle_slots-Keeps suspend_slot =
          suspend_cases Keeps probe socket r s (λ e. respond-Keeps socket (failed e) s k)
            (λ token slot _ _ _. drain_queue-Keeps _ (respond-Keeps socket done _ k))
      handle_slots-Keeps register_launch =
          register_cases Keeps probe socket r s (λ e. respond-Keeps socket (failed e) s k)
            (λ token slot pid identity _ _ _. respond-Keeps socket done _ k)
      handle_slots-Keeps allocate_call = k

    on_acknowledgement-Keeps :
        (socket : ℕ) (ack : Ack) (s : Slots)
        → Keeps s
        → Keeps (on_acknowledgement probe socket ack s)
    unfolding on_acknowledgement acknowledge
    on_acknowledgement-Keeps socket ack s k = elim (Option-cases (find_grant socket s.grants)) [
      | inl none_left ↦ rw (none_left, on_acknowledgement) k
      | inr (g, e) ↦ elim (Bool-cases (confirms g.token ack)) [
        | inl good ↦ rw (e, good, on_acknowledgement) (respond-Keeps g.socket confirmed _ k)
        | inr bad ↦
            rw (e, bad, on_acknowledgement) (destroy-Keeps g.socket _ (rollback-Keeps g _ k))
      ]
    ]

    expire-Keeps : (g : Grant) (s : Slots) → Keeps s → Keeps (expire probe g s)
    unfolding expire
    expire-Keeps g s k = elim (Bool-cases g.timer) [
      | inl armed ↦
          let stopped = record s { grants = set_grant (record g { timer = false }) s.grants } in
          simp armed
            (destroy-Keeps g.socket (rollback probe g stopped) (rollback-Keeps g stopped k))
      | inr off ↦ simp off k
    ]

    on_timeout-Keeps : (socket : ℕ) (s : Slots) → Keeps s → Keeps (on_timeout probe socket s)
    unfolding on_timeout
    on_timeout-Keeps socket s k = elim (Option-cases (find_grant socket s.grants)) [
      | inl none_left ↦ rw (none_left, on_timeout) k
      | inr (g, e) ↦ rw (e, on_timeout) (expire-Keeps g s k)
    ]

    on_close-Keeps : (socket : ℕ) (s : Slots) → Keeps s → Keeps (on_close probe socket s)
    unfolding on_close remove_queued_socket
    on_close-Keeps socket s k = elim (Option-cases (find_grant socket s.grants)) [
      | inl none_left ↦ rw (none_left, on_close) (destroy-Keeps socket s k)
      | inr (g, e) ↦ rw (e, on_close) (rollback-Keeps g _ (destroy-Keeps socket s k))
    ]

    dispatch-Keeps :
        (files : CounterFiles) (o : Operation) (socket : ℕ) (r : Request) (c : Coordinator)
        (disk : files.Disk)
        → Keeps c.slots
        → Keeps (dispatch probe files o socket r c disk).0.slots
    unfolding dispatch
    dispatch-Keeps files allocate_call socket r c disk k =
        answered (Calls.allocate_call files disk c.calls r)
      where
        answered :
            (a : (Calls × files.Disk) × Result ℕ)
            → Keeps (answer_call probe files socket c a).0.slots
        answered ((calls, d), ok n) = respond-Keeps socket (value n) c.slots k
        answered ((calls, d), err e) = respond-Keeps socket (failed e) c.slots k
    dispatch-Keeps files o socket r c disk k = handle_slots-Keeps socket r c.slots k o

    handle_request-Keeps :
        (files : CounterFiles) (socket : ℕ) (line : Line) (c : Coordinator) (disk : files.Disk)
        → Keeps c.slots
        → Keeps (handle_request probe files socket line c disk).0.slots
    unfolding handle_request
    handle_request-Keeps files socket line c disk k =
        elim (Result-cases (authenticate_request probe c line)) [
          | inr (e, threw) ↦ rw (threw, handle_request) (respond-Keeps socket (failed e) c.slots k)
          | inl (r, known) ↦ elim (Option-cases (operation_of r.operation)) [
            | inl other ↦
                rw (known, other, handle_request)
                  (respond-Keeps socket (failed (fault unknown_operation)) c.slots k)
            | inr (o, named) ↦
                rw (known, named, handle_request) (dispatch-Keeps files o socket r c disk k)
          ]
        ]

  -- No callback changes a limit that is bound.
  pub step-Keeps :
      (self : ℕ) (files : CounterFiles) (probe : ℕ → Option Text) (event : Event) (c : Coordinator)
      (disk : files.Disk)
      → Keeps c.slots
      → Keeps (step self files probe event c disk).0.slots
  unfolding step on_listening on_server_error mark_terminal
  step-Keeps self files probe (request socket line) c disk k =
      handle_request-Keeps probe files socket line c disk k
  step-Keeps self files probe (acknowledgement socket ack) c disk k =
      on_acknowledgement-Keeps probe socket ack c.slots k
  step-Keeps self files probe (timeout socket) c disk k = on_timeout-Keeps probe socket c.slots k
  step-Keeps self files probe (closed socket) c disk k = on_close-Keeps probe socket c.slots k
  step-Keeps self files probe (listening written) c disk k = ground (arith, k)
  step-Keeps self files probe (ended written) c disk k =
      ground (arith, k, refuse_all-Keeps c.slots.queue (record c.slots { status = terminal }) k)
  step-Keeps self files probe server_error c disk k =
      ground (arith, k, refuse_all-Keeps c.slots.queue (record c.slots { status = terminal }) k)
