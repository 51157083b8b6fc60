-- ===== src/Coordinator/Bound/Events.antt =====
-- The concurrency limit across whole callbacks.
use ypi.Prelude.{
  ℕ, ◌≤◌, ◌<◌, ◌≡◌, refl, ap, ◌∙◌, inl, inr, Bool, true, false, Option, none, some, Text, length,
  Bool-cases, Option-cases, arith, length-keep-le,
}
use ypi.Coordinator.Protocol.{
  Result, ok, err, Request, Operation, check, allocate_call, acquire_slot, release_slot,
  suspend_slot, resume_slot, register_launch, done, confirmed, failed, maximum_not_integer,
  maximum_not_positive, exact_positive_integer,
}
use ypi.Coordinator.State.{Grant, Slots}
use ypi.Coordinator.State.Maps.{length-delete-le, length-put_old, has_of_get, get-token}
use ypi.Coordinator.Slots.{
  bind_maximum, grant_slot, remove_queued_socket, prune_dead_slots, rollback, slot_process_alive,
}
use ypi.Coordinator.Grants.{
  confirms, Ack, acknowledge, on_acknowledgement, expire, on_timeout, on_close, find_grant,
  set_grant,
}
use ypi.Coordinator.Handler.{fail, request_slot, release, suspend, register, handle_slots}
use ypi.Coordinator.Handler.Cases.{request_slot_cases, release_cases, suspend_cases, register_cases}
use ypi.Coordinator.Bound.{
  limit_of, IsBounded, respond-IsBounded, destroy-IsBounded, grant_slot-bounds,
  drain_queue-IsBounded, rollback-IsBounded,
}

-- Binding yields the limit that the state then has, and touches no slot.
bind_maximum-bounds :
    (s : Slots) (request : Request) (limit : ℕ) (s' : Slots)
    → bind_maximum s request ≡ ok (limit, s')
    → IsBounded s
    → (s'.maximum ≡ some limit) × (length s'.active ≤ limit)
unfolding bind_maximum
bind_maximum-bounds s request limit s' e b =
    go (exact_positive_integer maximum_not_integer maximum_not_positive request.maximum) refl
      s.maximum refl
  where
    go :
        (r : Result ℕ)
        → exact_positive_integer maximum_not_integer maximum_not_positive request.maximum ≡ r
        → (m : Option ℕ) → s.maximum ≡ m
        → (s'.maximum ≡ some limit) × (length s'.active ≤ limit)
    go (err f) r m h = ground arith
    go (ok n) r none h = ground (arith, b.within)
    go (ok n) r (some bound) h = ground (arith, b.within)

module _ (probe : ℕ → Option Text) where
  prune-IsBounded : (s : Slots) → IsBounded s → IsBounded (prune_dead_slots probe s)
  unfolding prune_dead_slots
  prune-IsBounded s b = record {
    within = omega (arith, length-keep-le (slot_process_alive probe) s.active, b.within);
  }

  maximum-prune : (s : Slots) → (prune_dead_slots probe s).maximum ≡ s.maximum
  unfolding prune_dead_slots
  maximum-prune s = refl

  fail-IsBounded :
      (socket : ℕ) (s : Slots) (r : Result Slots)
      → IsBounded s
      → ((s' : Slots) → r ≡ ok s' → IsBounded s')
      → IsBounded (fail socket s r)
  unfolding fail
  fail-IsBounded socket s (ok s') b h = h s' refl
  fail-IsBounded socket s (err e) b h = respond-IsBounded socket (failed e) s b

  granted-IsBounded :
      (s : Slots) (socket : ℕ) (request : Request) (resume : Bool) (limit : ℕ)
      → s.maximum ≡ some limit
      → length s.active < limit
      → (s' : Slots) → grant_slot s socket request resume ≡ ok s'
      → IsBounded s'
  granted-IsBounded s socket request resume limit m h s' e =
      let b = grant_slot-bounds s socket request resume s' e in
      record { within = omega (arith, b.0, h, ap limit_of (b.1 ∙ m)) }

  module _ (socket : ℕ) (request : Request) (s : Slots) (b : IsBounded s) where
    request_slot-IsBounded :
        (resume : Bool) → IsBounded (request_slot probe socket request resume s)
    request_slot-IsBounded resume =
        request_slot_cases IsBounded probe socket request s
          (λ e. respond-IsBounded socket (failed e) s b) resume
          (λ limit bound e free.
            let (m, _) = bind_maximum-bounds s request limit bound e b in
            let p = prune-IsBounded bound (bound-IsBounded limit bound e) in
            fail-IsBounded socket (prune_dead_slots probe bound) _ p (
              granted-IsBounded (prune_dead_slots probe bound) socket request resume limit
                (maximum-prune bound ∙ m) free))
          (λ limit bound e _. record {
            within = (prune-IsBounded bound (bound-IsBounded limit bound e)).within;
          })
      where
        bound-IsBounded :
            (limit : ℕ) (bound : Slots)
            → bind_maximum s request ≡ ok (limit, bound)
            → IsBounded bound
        bound-IsBounded limit bound e =
            let (m, h) = bind_maximum-bounds s request limit bound e b in
            record { within = omega (arith, h, ap limit_of m) }

    release-IsBounded : IsBounded (release probe socket request s)
    release-IsBounded =
        release_cases IsBounded probe socket request s
          (λ e. respond-IsBounded socket (failed e) s b)
          (λ token _. drain_queue-IsBounded probe _ (
            respond-IsBounded socket done _
              (record { within = omega (arith, length-delete-le token s.active, b.within) })))

    suspend-IsBounded : IsBounded (suspend probe socket request s)
    suspend-IsBounded =
        suspend_cases IsBounded probe socket request s
          (λ e. respond-IsBounded socket (failed e) s b)
          (λ token slot _ _ _. drain_queue-IsBounded probe _ (
            respond-IsBounded socket done _
              (record { within = omega (arith, length-delete-le token s.active, b.within) })))

    register-IsBounded : IsBounded (register probe socket request s)
    register-IsBounded =
        register_cases IsBounded probe socket request s
          (λ e. respond-IsBounded socket (failed e) s b)
          (λ token slot pid identity _ found _. respond-IsBounded socket done _ (record {
            within =
                rw
                  (length-put_old
                    (record slot { child_pid = some pid; child_process_identity = some identity })
                    s.active
                    (rw (get-token token s.active slot found)
                      (has_of_get token s.active slot found)))
                  b.within;
          }))

    pub handle_slots-IsBounded : (o : Operation) → IsBounded (handle_slots probe o socket request s)
    unfolding handle_slots
    handle_slots-IsBounded check = respond-IsBounded socket done s b
    handle_slots-IsBounded acquire_slot = request_slot-IsBounded false
    handle_slots-IsBounded resume_slot = request_slot-IsBounded true
    handle_slots-IsBounded release_slot = release-IsBounded
    handle_slots-IsBounded suspend_slot = suspend-IsBounded
    handle_slots-IsBounded register_launch = register-IsBounded
    handle_slots-IsBounded allocate_call = b

  acknowledge-IsBounded :
      (g : Grant) (ack : Ack) (s : Slots) → IsBounded s → IsBounded (acknowledge probe g ack s)
  unfolding acknowledge
  acknowledge-IsBounded g ack s b = elim (Bool-cases (confirms g.token ack)) [
    | inl good ↦ rw good (respond-IsBounded g.socket confirmed _ (record { within = b.within }))
    | inr bad ↦
        rw bad (
          destroy-IsBounded g.socket _
            (rollback-IsBounded probe g _ (record { within = b.within })))
  ]

  pub on_acknowledgement-IsBounded :
      (socket : ℕ) (ack : Ack) (s : Slots)
      → IsBounded s
      → IsBounded (on_acknowledgement probe socket ack s)
  unfolding on_acknowledgement
  on_acknowledgement-IsBounded socket ack s b = elim (Option-cases (find_grant socket s.grants)) [
    | inl none_left ↦ rw (none_left, on_acknowledgement) b
    | inr (g, e) ↦ rw (e, on_acknowledgement) (acknowledge-IsBounded g ack s b)
  ]

  expire-IsBounded : (g : Grant) (s : Slots) → IsBounded s → IsBounded (expire probe g s)
  unfolding expire
  expire-IsBounded g s b = elim (Bool-cases g.timer) [
    | inl armed ↦
        let stopped = record s { grants = set_grant (record g { timer = false }) s.grants } in
        simp armed (
          destroy-IsBounded g.socket (rollback probe g stopped)
            (rollback-IsBounded probe g stopped (record { within = b.within })))
    | inr off ↦ simp off b
  ]

  pub on_timeout-IsBounded :
      (socket : ℕ) (s : Slots) → IsBounded s → IsBounded (on_timeout probe socket s)
  unfolding on_timeout
  on_timeout-IsBounded socket s b = elim (Option-cases (find_grant socket s.grants)) [
    | inl none_left ↦ rw (none_left, on_timeout) b
    | inr (g, e) ↦ rw (e, on_timeout) (expire-IsBounded g s b)
  ]

  pub on_close-IsBounded :
      (socket : ℕ) (s : Slots) → IsBounded s → IsBounded (on_close probe socket s)
  unfolding on_close remove_queued_socket
  on_close-IsBounded socket s b =
      let d = destroy-IsBounded socket s b in
      elim (Option-cases (find_grant socket s.grants)) [
        | inl none_left ↦ rw (none_left, on_close) (record { within = d.within })
        | inr (g, e) ↦
            rw (e, on_close) (rollback-IsBounded probe g _ (record { within = d.within }))
      ]
