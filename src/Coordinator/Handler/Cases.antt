-- ===== src/Coordinator/Handler/Cases.antt =====
-- One case rule for each slot operation of the handler: what has to hold of the states it can
-- leave, for it to hold of the state that it leaves.
use ypi.Prelude.{
  ℕ, ◌<◌, ◌≤◌, ◌≡◌, inl, inr, Bool, true, Option, some, [], ◌∷◌, ◌++◌, Text, length, Bool-cases,
  Option-cases, arith, ltb,
}
use ypi.Coordinator.Protocol.{
  ok, Result-cases, Failure, fault, fatal, Request, done, failed, slot_unavailable, not_slot_owner,
  launch_slot_unavailable, launch_identity_invalid, require_slot_token,
}
use ypi.Coordinator.State.{Slot, Slots, get, delete, put, respond}
use ypi.Coordinator.Slots.{bind_maximum, grant_slot, prune_dead_slots, drain_queue}
use ypi.Coordinator.Handler.{
  fail, request_slot, release, suspend, register, launch_child, is_slot_party,
}

abbrev enqueue : ℕ → Request → Bool → Slots → Slots
enqueue socket request resume s = record s {
  queue = s.queue ++ record { socket = socket; request = request; resume = resume } ∷ [];
}

module _ {ℓ} (P : Slots → Type ℓ) (probe : ℕ → Option Text) (socket : ℕ) (request : Request)
    (s : Slots) (refused : (e : Failure) → P (respond socket (failed e) s)) where
  pub request_slot_cases :
      (resume : Bool)
      → ((limit : ℕ) (bound : Slots)
          → bind_maximum s request ≡ ok (limit, bound)
          → length (prune_dead_slots probe bound).active < limit
          → P (
              fail socket
                (prune_dead_slots probe bound)
                (grant_slot (prune_dead_slots probe bound) socket request resume)))
      → ((limit : ℕ) (bound : Slots)
          → bind_maximum s request ≡ ok (limit, bound)
          → limit ≤ length (prune_dead_slots probe bound).active
          → P (enqueue socket request resume (prune_dead_slots probe bound)))
      → P (request_slot probe socket request resume s)
  unfolding request_slot
  request_slot_cases resume granted queued = elim (Result-cases (bind_maximum s request)) [
    | inr (e, threw) ↦ rw (threw, request_slot) (refused e)
    | inl ((limit, bound), e) ↦
        elim (Bool-cases (ltb (length (prune_dead_slots probe bound).active) limit)) [
          | inl free ↦ rw (e, free, request_slot) (granted limit bound e (ground arith))
          | inr full ↦ rw (e, full, request_slot) (queued limit bound e (ground arith))
        ]
  ]

  pub release_cases :
      ((token : Text)
        → require_slot_token request ≡ ok token
        → P (
            drain_queue probe (
              respond socket done (record s {
                active = delete token s.active;
                suspended = delete token s.suspended;
              }))))
      → P (release probe socket request s)
  unfolding release
  release_cases released = elim (Result-cases (require_slot_token request)) [
    | inr (e, threw) ↦ rw (threw, release) (refused e)
    | inl (token, e) ↦ rw (e, release) (released token e)
  ]

  pub suspend_cases :
      ((token : Text) (slot : Slot)
        → require_slot_token request ≡ ok token
        → get token s.active ≡ some slot
        → is_slot_party slot request ≡ true
        → P (
            drain_queue probe (
              respond socket done
                (record s { active = delete token s.active; suspended = put slot s.suspended }))))
      → P (suspend probe socket request s)
  unfolding suspend
  suspend_cases yielded = elim (Result-cases (require_slot_token request)) [
    | inr (e, threw) ↦ rw (threw, suspend) (refused e)
    | inl (token, e) ↦ elim (Option-cases (get token s.active)) [
      | inl missing ↦ rw (e, missing, suspend) (refused (fault slot_unavailable))
      | inr (slot, found) ↦ elim (Bool-cases (is_slot_party slot request)) [
        | inl party ↦ rw (e, found, party, suspend) (yielded token slot e found party)
        | inr stranger ↦ rw (e, found, stranger, suspend) (refused (fault not_slot_owner))
      ]
    ]
  ]

  pub register_cases :
      ((token : Text) (slot : Slot) (pid : ℕ) (identity : Text)
        → require_slot_token request ≡ ok token
        → get token s.active ≡ some slot
        → launch_child probe request ≡ some (pid, identity)
        → P (
            respond socket done (record s {
              active =
                  put
                    (record slot { child_pid = some pid; child_process_identity = some identity })
                    s.active;
            })))
      → P (register probe socket request s)
  unfolding register
  register_cases registered = elim (Result-cases (require_slot_token request)) [
    | inr (e, threw) ↦ rw (threw, register) (refused e)
    | inl (token, e) ↦ elim (Option-cases (get token s.active)) [
      | inl missing ↦ rw (e, missing, register) (refused (fatal launch_slot_unavailable))
      | inr (slot, found) ↦ elim (Option-cases (launch_child probe request)) [
        | inl unknown ↦ rw (e, found, unknown, register) (refused (fatal launch_identity_invalid))
        | inr ((pid, identity), known) ↦
            rw (e, found, known, register) (registered token slot pid identity e found known)
      ]
    ]
  ]
