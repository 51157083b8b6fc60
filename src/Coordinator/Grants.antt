-- ===== src/Coordinator/Grants.antt =====
-- The life of one slot grant after it is offered: acknowledgement, timeout and close, the
-- callbacks that `grantSlot` of extensions/ypi/internal/tree-coordinator.ts installs.
use ypi.Prelude.{
  ℕ, Bool, true, false, Option, none, some, List, [], ◌∷◌, Text, text_eq, if◌then◌else◌, not, keep,
  ◌&&◌, ◌==◌,
}
use ypi.Process.{nat}
use ypi.Coordinator.Protocol.{Value, bool, num, str, confirmed}
use ypi.Coordinator.State.{Grant, Slots, respond, destroy}
use ypi.Coordinator.Slots.{remove_queued_socket, rollback}

-- What the client answers to an offered slot, as `JSON.parse` reads it; `garbled` where it throws,
-- where the result has no fields, or where the answer exceeds the protocol bound.
pub data Ack : Type 0 where
  garbled : Ack
  fields : Value → Value → Value → Ack

abbrev pub is_protocol_version : Value → Bool
is_protocol_version (num (nat n)) = n == 1
is_protocol_version _ = false

abbrev is_true : Value → Bool
is_true (bool true) = true
is_true _ = false

abbrev pub is_text : Text → Value → Bool
is_text t (str u) = text_eq u t
is_text t _ = false

abbrev pub confirms : Text → Ack → Bool
confirms token garbled = false
confirms token (fields version ack t) =
    is_protocol_version version && is_true ack && is_text token t

unfoldable pub find_grant : ℕ → List Grant → Option Grant
find_grant socket [] = none
find_grant socket (g ∷ gs) = if g.socket == socket then some g else find_grant socket gs

unfoldable pub set_grant : Grant → List Grant → List Grant
set_grant g [] = []
set_grant g (h ∷ hs) = if h.socket == g.socket then g ∷ hs else h ∷ set_grant g hs

module _ (probe : ℕ → Option Text) where
  unfoldable pub acknowledge : Grant → Ack → Slots → Slots
  acknowledge g ack s =
      if confirms g.token ack
      then respond g.socket confirmed (record s {
        grants = set_grant (record g { acknowledged = true; timer = false }) s.grants;
      })
      else destroy g.socket
          (rollback probe g (record s { grants = set_grant (record g { timer = false }) s.grants }))

  unfoldable pub on_acknowledgement : ℕ → Ack → Slots → Slots
  on_acknowledgement socket ack s = elim (find_grant socket s.grants) [
    | none ↦ s
    | some g ↦ acknowledge g ack s
  ]

  -- The five-second timer; it has been cleared where `timer` is off.
  unfoldable pub expire : Grant → Slots → Slots
  expire g s =
      if g.timer
      then destroy g.socket
          (rollback probe g (record s { grants = set_grant (record g { timer = false }) s.grants }))
      else s

  unfoldable pub on_timeout : ℕ → Slots → Slots
  on_timeout socket s = elim (find_grant socket s.grants) [ none ↦ s | some g ↦ expire g s ]

  -- The close of a connection: it leaves the queue, and its grant, if it has one, is rolled back.
  unfoldable pub on_close : ℕ → Slots → Slots
  on_close socket s =
      let closed = remove_queued_socket (destroy socket s) socket in
      elim (find_grant socket s.grants) [
        | none ↦ closed
        | some g ↦
            rollback probe g
              (record closed { grants = keep (λ (h : Grant). not (h.socket == socket)) s.grants })
      ]
