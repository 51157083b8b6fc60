-- ===== src/Coordinator/Slots.antt =====
-- Granting, confirming, rolling back and queueing slots: `slotProcessAlive` to `drainQueue` of
-- extensions/ypi/internal/tree-coordinator.ts. Each function takes the slot state to the next;
-- those that can throw leave it as it was where they do.
use ypi.Prelude.{
  ℕ, suc, Bool, true, false, Option, none, some, List, [], ◌∷◌, ◌++◌, Text, if◌then◌else◌, not,
  keep, ◌&&◌, ◌||◌, ◌==◌, ltb, length,
}
use ypi.Process.{Number, nat, process_matches_start_identity}
use ypi.Coordinator.Protocol.{
  slot_exists, suspension_unavailable, maximum_not_integer, maximum_not_positive, maximum_changed,
  fault, Result, ok, err, ◌>>=◌, Request, granted, failed, require_slot_token,
  exact_positive_integer,
}
use ypi.Coordinator.State.{
  Status, starting, active, terminal, Slot, Queued, Grant, Slots, get, has, delete, put,
  is_destroyed, respond,
}

-- `bindMaximum`: the first request fixes the limit, and the later ones have to agree.
unfoldable pub bind_maximum : Slots → Request → Result (ℕ × Slots)
unfolding exact_positive_integer
bind_maximum s request = do
  limit ← exact_positive_integer maximum_not_integer maximum_not_positive request.maximum
  elim s.maximum [
    | none ↦ ok (limit, record s { maximum = some limit })
    | some bound ↦ if bound == limit then ok (limit, s) else err (fault maximum_changed)
  ]

-- The slot that a grant makes; a resumed one is bound to the caller at once.
unfoldable pub new_slot : ℕ → Text → Request → Bool → Slot
new_slot serial token request resume = record {
  serial = serial;
  token = token;
  owner_pid = request.pid;
  owner_process_identity = request.process_identity;
  child_pid = if resume then some request.pid else none;
  child_process_identity = if resume then some request.process_identity else none;
}

-- The slot is active, the suspension that it resumes is used up, and the grant is open.
unfoldable pub take_slot : Slots → ℕ → Request → Bool → Text → Slots
take_slot s socket request resume token = record s {
  active = put (new_slot s.next_serial token request resume) s.active;
  suspended = if resume then delete token s.suspended else s.suspended;
  grants =
      record {
        socket = socket;
        token = token;
        serial = s.next_serial;
        suspended = if resume then get token s.suspended else none;
        acknowledged = false;
        timer = true;
      }
      ∷ s.grants;
  next_serial = suc s.next_serial;
}

unfoldable pub grant : Slots → ℕ → Request → Bool → Text → Slots
grant s socket request resume token =
    respond socket granted (take_slot s socket request resume token)

-- `grantSlot`, with its three refusals.
unfoldable pub grant_slot : Slots → ℕ → Request → Bool → Result Slots
grant_slot s socket request resume = do
  token ← require_slot_token request
  if has token s.active
      then err (fault slot_exists)
      else if resume && not (has token s.suspended)
      then err (fault suspension_unavailable)
      else ok (grant s socket request resume token)

-- `removeQueuedSocket`.
unfoldable pub remove_queued_socket : Slots → ℕ → Slots
remove_queued_socket s socket = record s {
  queue = keep (λ (q : Queued). not (q.socket == socket)) s.queue;
}

-- One round of the loop of `drainQueue`, for an entry taken off the queue.
unfoldable pub serve : Slots → Queued → Slots
serve s q = if is_destroyed q.socket s then s else elim (grant_slot s q.socket q.request q.resume) [
  | ok s' ↦ s'
  | err e ↦ respond q.socket (failed e) s
]

-- The loop, over the queue that is left.
unfoldable pub drain_loop : ℕ → List Queued → Slots → Slots
drain_loop limit [] s = record s { queue = [] }
drain_loop limit (q ∷ qs) s =
    let rest = drain_loop limit qs (serve s q) in
    if ltb (length s.active) limit then rest else record s { queue = q ∷ qs }

abbrev pub is_active : Status → Bool
is_active starting = false
is_active active = true
is_active terminal = false

abbrev pub optional_pid : Option ℕ → Option Number
optional_pid none = none
optional_pid (some n) = some (nat n)

-- What `rollback` puts back before it drains: the slot goes if it is still the one granted, and
-- the suspension returns unless the token has another.
unfoldable pub revoke : Grant → Slots → Slots
revoke g s = record s {
  active = elim (get g.token s.active) [
    | none ↦ s.active
    | some current ↦ if current.serial == g.serial then delete g.token s.active else s.active
  ];
  suspended = elim g.suspended [
    | none ↦ s.suspended
    | some old ↦ if has g.token s.suspended then s.suspended else s.suspended ++ old ∷ []
  ];
}

module _ (probe : ℕ → Option Text) where
  unfoldable pub slot_process_alive : Slot → Bool
  unfolding process_matches_start_identity
  slot_process_alive slot =
      process_matches_start_identity probe (some (nat slot.owner_pid))
        (some slot.owner_process_identity)
      || process_matches_start_identity probe (optional_pid slot.child_pid)
          slot.child_process_identity

  unfoldable pub prune_dead_slots : Slots → Slots
  prune_dead_slots s = record s {
    active = keep slot_process_alive s.active;
    suspended = keep slot_process_alive s.suspended;
  }

  unfoldable pub drain_at : ℕ → Slots → Slots
  unfolding drain_loop prune_dead_slots
  drain_at limit s = drain_loop limit s.queue (prune_dead_slots s)

  unfoldable pub drain_queue : Slots → Slots
  drain_queue s =
      if is_active s.status then elim s.maximum [ none ↦ s | some limit ↦ drain_at limit s ] else s

  unfoldable pub rollback : Grant → Slots → Slots
  rollback g s = if g.acknowledged then s else drain_queue (revoke g s)
