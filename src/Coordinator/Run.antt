-- ===== src/Coordinator/Run.antt =====
-- The callbacks of one coordinator generation as events, and the states they reach.
pub mod Fixed
pub mod Limit
pub mod Terminal
use ypi.Prelude.{ℕ, Bool, Option, Text}
use ypi.Coordinator.Protocol.{Line}
use ypi.Coordinator.State.{Slots}
use ypi.Coordinator.Grants.{Ack, on_acknowledgement, on_timeout, on_close}
use ypi.Coordinator.Calls.{CounterFiles}
use ypi.Coordinator.Handler.{Coordinator, handle_request}
use ypi.Coordinator.Generation.{mark_terminal, on_listening, on_server_error}

-- A request line, a slot acknowledgement, the timer of an offered slot, the close of a connection,
-- the open socket, the end of the generation and the server's failure. The flags say whether the manifest was written.
pub data Event : Type 0 where
  request : ℕ → Line → Event
  acknowledgement : ℕ → Ack → Event
  timeout closed : ℕ → Event
  listening ended : Bool → Event
  server_error : Event

abbrev pub on_slots : (Slots → Slots) → Coordinator → Coordinator
on_slots f c = record c { slots = f c.slots }

-- `probe` answers for the processes at the moment of the event; it may differ from event to event.
module _ (self : ℕ) (files : CounterFiles) where
  open files use {Disk}

  unfoldable pub step : (ℕ → Option Text) → Event → Coordinator → Disk → Coordinator × Disk
  step probe (request socket line) c disk = handle_request probe files socket line c disk
  step probe (acknowledgement socket ack) c disk =
      (on_slots (on_acknowledgement probe socket ack) c, disk)
  step probe (timeout socket) c disk = (on_slots (on_timeout probe socket) c, disk)
  step probe (closed socket) c disk = (on_slots (on_close probe socket) c, disk)
  step probe (listening written) c disk = (on_slots (on_listening written) c, disk)
  step probe (ended written) c disk =
      (on_slots (λ s. (mark_terminal probe self written s).0) c, disk)
  step probe server_error c disk = (on_slots on_server_error c, disk)

  -- The states that a generation reaches from its start.
  pub data Reach (start : Coordinator) : Coordinator → Type 0 where
    here : Reach start start
    next :
        {c : Coordinator}
        → Reach start c
        → (probe : ℕ → Option Text) (event : Event) (before : Disk)
        → Reach start (step probe event c before).0
