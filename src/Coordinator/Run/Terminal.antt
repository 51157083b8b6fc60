-- ===== src/Coordinator/Run/Terminal.antt =====
-- What a generation does once its authority has ended.
use ypi.Prelude.{
  ℕ, ◌≡◌, refl, ◌∙◌, ap, subst, ◌⊎◌, inl, inr, Bool, true, false, Option, Text, Bool-cases,
  Option-cases, arith,
}
use ypi.Coordinator.Protocol.{
  err, Failure, Line, malformed, not_object, object, Fields, Response, failed, fatal, fault,
  authority_terminal, request_identity_invalid, malformed_json, request_not_object, confirmed,
}
use ypi.Coordinator.State.{Slots, terminal, Grant, has, respond, destroy}
use ypi.Coordinator.State.Maps.{has-delete_sub}
use ypi.Coordinator.Slots.{is_active, drain_queue, revoke, rollback, remove_queued_socket}
use ypi.Coordinator.Grants.{
  Ack, confirms, acknowledge, on_acknowledgement, expire, on_timeout, on_close, find_grant,
  set_grant,
}
use ypi.Coordinator.Calls.{CounterFiles}
use ypi.Coordinator.Handler.{Coordinator, handle_request, authenticate_request}
use ypi.Coordinator.Generation.{mark_terminal, on_listening, on_server_error}
use ypi.Coordinator.Run.{
  Event, request, acknowledgement, timeout, closed, listening, ended, server_error, step,
}

authenticate_object :
    (probe : ℕ → Option Text) (c : Coordinator) (f : Fields)
    → is_active c.slots.status ≡ false
    → (authenticate_request probe c (object f) ≡ err (fatal request_identity_invalid))
      ⊎ (authenticate_request probe c (object f) ≡ err (fatal authority_terminal))
unfolding authenticate_request
authenticate_object probe c f h = ground arith

-- An authority that is not active authenticates nothing; whatever arrives as an object is refused
-- with the exit code of a cancelled run.
pub authenticate_inactive :
    (probe : ℕ → Option Text) (c : Coordinator) (line : Line)
    → is_active c.slots.status ≡ false
    → (e : Failure) × (authenticate_request probe c line ≡ err e)
      × ((f : Fields) → line ≡ object f → e.exit_code ≡ 130)
unfolding authenticate_request
authenticate_inactive probe c malformed h = (fault malformed_json, refl, λ f e. absurd (cc))
authenticate_inactive probe c not_object h = (fault request_not_object, refl, λ f e. absurd (cc))
authenticate_inactive probe c (object f) h = elim (authenticate_object probe c f h) [
  | inl e ↦ (fatal request_identity_invalid, e, λ _ _. refl)
  | inr e ↦ (fatal authority_terminal, e, λ _ _. refl)
]

-- After the end: the state is terminal, and its slots are among those of `before`.
record Ended (before after : Slots) : Type 0 where
  pub status : after.status ≡ terminal
  pub tokens : (t : Text) → has t after.active ≡ true → has t before.active ≡ true

respond-Ended :
    (before s : Slots) (socket : ℕ) (r : Response)
    → Ended before s
    → Ended before (respond socket r s)
unfolding respond
respond-Ended before s socket r h = record {
  status = ground (arith, h.status);
  tokens = λ t. ground (arith, h.tokens t);
}

destroy-Ended : (before s : Slots) (socket : ℕ) → Ended before s → Ended before (destroy socket s)
unfolding destroy
destroy-Ended before s socket h = record {
  status = ground (arith, h.status);
  tokens = λ t. ground (arith, h.tokens t);
}

revoke-Ended : (before s : Slots) (g : Grant) → Ended before s → Ended before (revoke g s)
unfolding revoke
revoke-Ended before s g h = record {
  status = h.status;
  tokens = λ t. ground (arith, h.tokens t, has-delete_sub t g.token s.active);
}

drain_ended : (probe : ℕ → Option Text) (s : Slots) → s.status ≡ terminal → drain_queue probe s ≡ s
unfolding drain_queue
drain_ended probe s h = simp h

rollback-Ended :
    (probe : ℕ → Option Text) (before s : Slots) (g : Grant)
    → Ended before s
    → Ended before (rollback probe g s)
unfolding rollback
rollback-Ended probe before s g h =
    let r = revoke-Ended before s g h in
    elim (Bool-cases g.acknowledged) [
      | inl kept ↦ simp kept h
      | inr open_grant ↦ simp open_grant (rw (drain_ended probe (revoke g s) r.status) r)
    ]

module _ (probe : ℕ → Option Text) (before s : Slots) (h : Ended before s) where
  acknowledge-Ended : (g : Grant) (ack : Ack) → Ended before (acknowledge probe g ack s)
  unfolding acknowledge
  acknowledge-Ended g ack = elim (Bool-cases (confirms g.token ack)) [
    | inl good ↦ rw good (
        respond-Ended before _ g.socket confirmed (record { status = h.status; tokens = h.tokens }))
    | inr bad ↦ rw bad (
        destroy-Ended before _ g.socket
          (rollback-Ended probe before _ g (record { status = h.status; tokens = h.tokens })))
  ]

  on_acknowledgement-Ended :
      (socket : ℕ) (ack : Ack) → Ended before (on_acknowledgement probe socket ack s)
  unfolding on_acknowledgement
  on_acknowledgement-Ended socket ack = elim (Option-cases (find_grant socket s.grants)) [
    | inl none_left ↦ rw (none_left, on_acknowledgement) h
    | inr (g, e) ↦ rw (e, on_acknowledgement) (acknowledge-Ended g ack)
  ]

  expire-Ended : (g : Grant) → Ended before (expire probe g s)
  unfolding expire
  expire-Ended g = elim (Bool-cases g.timer) [
    | inr off ↦ simp off h
    | inl armed ↦
        let stopped = record s { grants = set_grant (record g { timer = false }) s.grants } in
        simp armed (
          destroy-Ended before (rollback probe g stopped) g.socket (
            rollback-Ended probe before stopped g
              (record { status = h.status; tokens = h.tokens })))
  ]

  on_timeout-Ended : (socket : ℕ) → Ended before (on_timeout probe socket s)
  unfolding on_timeout
  on_timeout-Ended socket = elim (Option-cases (find_grant socket s.grants)) [
    | inl none_left ↦ rw (none_left, on_timeout) h
    | inr (g, e) ↦ rw (e, on_timeout) (expire-Ended g)
  ]

  on_close-Ended : (socket : ℕ) → Ended before (on_close probe socket s)
  unfolding on_close remove_queued_socket
  on_close-Ended socket =
      let d = destroy-Ended before s socket h in
      let closed_state : Ended before (remove_queued_socket (destroy socket s) socket) = record {
        status = d.status;
        tokens = d.tokens;
      } in
      elim (Option-cases (find_grant socket s.grants)) [
        | inl none_left ↦ rw (none_left, on_close) closed_state
        | inr (g, e) ↦
            rw (e, on_close)
              (rollback-Ended probe before _ g (record { status = d.status; tokens = d.tokens }))
      ]

listening_ended : (written : Bool) (s : Slots) → s.status ≡ terminal → on_listening written s ≡ s
unfolding on_listening
listening_ended written s h = simp h

mark_ended :
    (probe : ℕ → Option Text) (self : ℕ) (written : Bool) (s : Slots)
    → s.status ≡ terminal
    → (mark_terminal probe self written s).0 ≡ s
unfolding mark_terminal
mark_ended probe self written s h = simp h

server_error_ended : (s : Slots) → s.status ≡ terminal → on_server_error s ≡ s
unfolding on_server_error
server_error_ended s h = simp h

module _ (self : ℕ) (files : CounterFiles) where
  open files use {Disk}

  -- Once the authority of a generation is terminal it stays so: no callback makes a token active
  -- that was not, changes the call accounting, or writes the counter file.
  pub step-terminal :
      (probe : ℕ → Option Text) (event : Event) (c : Coordinator) (disk : Disk)
      → c.slots.status ≡ terminal
      → ((step self files probe event c disk).0.slots.status ≡ terminal)
        × ((t : Text)
            → has t (step self files probe event c disk).0.slots.active ≡ true
            → has t c.slots.active ≡ true)
        × ((step self files probe event c disk).0.calls ≡ c.calls)
        × ((step self files probe event c disk).1 ≡ disk)
  unfolding step handle_request
  step-terminal probe (request socket line) c disk h =
      let (e, threw, _) = authenticate_inactive probe c line (ground arith) in
      let r =
        respond-Ended c.slots c.slots socket (failed e)
          (record { status = h; tokens = λ t k. k }) in
      rw (threw, handle_request) (r.status, r.tokens, refl, refl)
  step-terminal probe (acknowledgement socket ack) c disk h =
      let r =
        on_acknowledgement-Ended probe c.slots c.slots (record { status = h; tokens = λ t k. k })
          socket ack in
      (r.status, r.tokens, refl, refl)
  step-terminal probe (timeout socket) c disk h =
      let r =
        on_timeout-Ended probe c.slots c.slots (record { status = h; tokens = λ t k. k }) socket in
      (r.status, r.tokens, refl, refl)
  step-terminal probe (closed socket) c disk h =
      let r =
        on_close-Ended probe c.slots c.slots (record { status = h; tokens = λ t k. k }) socket in
      (r.status, r.tokens, refl, refl)
  step-terminal probe (listening written) c disk h =
      let e = listening_ended written c.slots h in
      (
        ap (λ (x : Slots). x.status) e ∙ h,
        (λ t k. subst (λ (x : Slots). has t x.active ≡ true) e k),
        refl,
        refl,
      )
  step-terminal probe (ended written) c disk h =
      let e = mark_ended probe self written c.slots h in
      (
        ap (λ (x : Slots). x.status) e ∙ h,
        (λ t k. subst (λ (x : Slots). has t x.active ≡ true) e k),
        refl,
        refl,
      )
  step-terminal probe server_error c disk h =
      let e = server_error_ended c.slots h in
      (
        ap (λ (x : Slots). x.status) e ∙ h,
        (λ t k. subst (λ (x : Slots). has t x.active ≡ true) e k),
        refl,
        refl,
      )
