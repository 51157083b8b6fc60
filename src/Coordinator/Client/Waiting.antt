-- ===== src/Coordinator/Client/Waiting.antt =====
-- The events of one request of `requestCoordinator` in
-- extensions/ypi/internal/tree-coordinator.ts: what arrives, and how the waiting ends.
use ypi.Prelude.{
  ℕ, Bool, true, false, Option, none, some, List, [], ◌∷◌, ◌++◌, Text, if◌then◌else◌, ◌==◌, ltb,
}
use ypi.Coordinator.Protocol.{Operation}
use ypi.Coordinator.Client.{
  ClientError, cancelled, expired, unreachable, closed_early, answer_too_long, answer_invalid,
  Reply, rejected, Client, finish, on_reply,
}

abbrev grow_first : ℕ → List Text × Text → List Text × Text
grow_first c ([], rest) = ([], c ∷ rest)
grow_first c (l ∷ ls, rest) = ((c ∷ l) ∷ ls, rest)

-- The lines that `indexOf("\n")` finds one by one, and what is left.
unfoldable pub lines : Text → List Text × Text
lines [] = ([], [])
lines (c ∷ cs) =
    let (ls, rest) = lines cs in if c == 10 then ([] ∷ ls, rest) else grow_first c (ls, rest)

abbrev pub is_open : Client → Bool
is_open c = elim c.settled [ none ↦ true | some _ ↦ false ]

abbrev pub max_protocol_bytes : ℕ
max_protocol_bytes = 16384

-- Before the connection: the abort signal, and the deadline as the time left.
unfoldable pub start_waiting : Bool → Option ℕ → Option ClientError
start_waiting aborted remaining =
    if aborted
    then some cancelled
    else elim remaining [ none ↦ none | some left ↦ if ltb 0 left then none else some expired ]

pub data ClientEvent : Type 0 where
  data_arrives : Text → ClientEvent
  aborts times_out fails closes : ClientEvent

module _ (parse : Text → Option Reply) (byte_length : Text → ℕ) (operation : Operation) where
  unfoldable pub on_line : Text → Client → Client
  on_line line c = elim (parse line) [
    | none ↦ finish (rejected answer_invalid) c
    | some reply ↦ on_reply operation reply c
  ]

  -- `while (!settled)`: a line after the one that settles the request is not read.
  unfoldable pub on_lines : List Text → Client → Client
  on_lines [] c = c
  on_lines (line ∷ ls) c = let next = on_lines ls (on_line line c) in if is_open c then next else c

  unfoldable pub on_data : Text → Client → Client
  on_data chunk c =
      if ltb max_protocol_bytes (byte_length (c.input ++ chunk))
      then finish (rejected answer_too_long) (record c { input = c.input ++ chunk })
      else on_lines (lines (c.input ++ chunk)).0 (record c { input = (lines (c.input ++ chunk)).1 })

  unfoldable pub client_step : ClientEvent → Client → Client
  client_step (data_arrives chunk) c = on_data chunk c
  client_step aborts c = finish (rejected cancelled) c
  client_step times_out c = finish (rejected expired) c
  client_step fails c = finish (rejected unreachable) c
  client_step closes c = finish (rejected closed_early) c

  unfoldable pub client_steps : List ClientEvent → Client → Client
  client_steps [] c = c
  client_steps (e ∷ es) c = client_steps es (client_step e c)
