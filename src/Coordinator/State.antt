-- ===== src/Coordinator/State.antt =====
-- The slot state of the tree coordinator (`LocalCoordinator` of
-- extensions/ypi/internal/tree-coordinator.ts) and its maps of slots.
pub mod Maps
use ypi.Prelude.{
  ℕ, Bool, true, false, Option, none, some, List, [], ◌∷◌, Text, text_eq, if◌then◌else◌, any, ◌==◌,
}
use ypi.Coordinator.Protocol.{Request, Response}

pub data Status : Type 0 where
  starting active terminal : Status

-- `serial` stands for the identity of the slot object, which the code compares by `===`.
pub record Slot : Type 0 where
  pub serial : ℕ
  pub token : Text
  pub owner_pid : ℕ
  pub owner_process_identity : Text
  pub child_pid : Option ℕ
  pub child_process_identity : Option Text

pub record Queued : Type 0 where
  pub socket : ℕ
  pub request : Request
  pub resume : Bool

-- What the closure of one slot grant keeps until its connection closes: its socket, the slot made,
-- the suspension taken, whether the client confirmed, and whether the timer is running.
pub record Grant : Type 0 where
  pub socket : ℕ
  pub token : Text
  pub serial : ℕ
  pub suspended : Option Slot
  pub acknowledged : Bool
  pub timer : Bool

-- `destroyed` lists the connections that are destroyed, `sent` the answers written, newest first.
pub record Slots : Type 0 where
  pub status : Status
  pub active : List Slot
  pub suspended : List Slot
  pub queue : List Queued
  pub maximum : Option ℕ
  pub grants : List Grant
  pub next_serial : ℕ
  pub destroyed : List ℕ
  pub sent : List (ℕ × Response)

unfoldable pub initial_slots : Slots
initial_slots = record {
  status = starting;
  active = [];
  suspended = [];
  queue = [];
  maximum = none;
  grants = [];
  next_serial = 0;
  destroyed = [];
  sent = [];
}

-- `Map.get`, `Map.has`, `Map.delete` and `Map.set`; a new key goes to the end, an old one keeps
-- its place.
unfoldable pub get : Text → List Slot → Option Slot
get t [] = none
get t (s ∷ ss) = if text_eq s.token t then some s else get t ss

unfoldable pub has : Text → List Slot → Bool
has t [] = false
has t (s ∷ ss) = if text_eq s.token t then true else has t ss

unfoldable pub delete : Text → List Slot → List Slot
delete t [] = []
delete t (s ∷ ss) = if text_eq s.token t then delete t ss else s ∷ delete t ss

unfoldable pub put : Slot → List Slot → List Slot
put slot [] = slot ∷ []
put slot (s ∷ ss) = if text_eq s.token slot.token then slot ∷ ss else s ∷ put slot ss

unfoldable pub is_destroyed : ℕ → Slots → Bool
is_destroyed socket s = any (λ n. n == socket) s.destroyed

-- `response` and `failureResponse`: nothing is written to a destroyed connection.
unfoldable pub respond : ℕ → Response → Slots → Slots
respond socket r s = if is_destroyed socket s then s else record s { sent = (socket, r) ∷ s.sent }

unfoldable pub destroy : ℕ → Slots → Slots
destroy socket s =
    if is_destroyed socket s then s else record s { destroyed = socket ∷ s.destroyed }
