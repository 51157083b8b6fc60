-- ===== src/Coordinator/Client/Tests.antt =====
-- A request for a slot that is offered and then confirmed, one letter a line.
use ypi.Prelude.{
  ◌≡◌, refl, Option, none, some, List, [], ◌∷◌, codes, Text, true, text_eq, if◌then◌else◌, length,
}
use ypi.Coordinator.Protocol.{acquire_slot}
use ypi.Coordinator.Client.{
  Reply, grant, confirmed, resolved, Client, initial_client, finish, on_reply,
}
use ypi.Coordinator.Client.Waiting.{
  lines, ClientEvent, data_arrives, closes, client_step, client_steps, on_data, on_lines, on_line,
}
use ypi.Coordinator.Client.Settled.{IsConfirmed, client_steps-IsConfirmed, client_steps-Keeps}

abbrev offered : Reply
offered = record { well_formed = true; accepted = true; exit_code = 1; phase = grant; value = none }

abbrev given : Reply
given = record {
  well_formed = true;
  accepted = true;
  exit_code = 1;
  phase = confirmed;
  value = none;
}

abbrev parse_letter : Text → Option Reply
parse_letter t =
    if text_eq t (codes "g")
    then some offered
    else if text_eq t (codes "c")
    then some given
    else none

abbrev answers : List ClientEvent
answers = data_arrives (codes "g\nc") ∷ data_arrives (codes "\n") ∷ closes ∷ []

client_steps-IsConfirmed_example :
    IsConfirmed (client_steps parse_letter (λ t. length t) acquire_slot answers initial_client)
client_steps-IsConfirmed_example =
    client_steps-IsConfirmed parse_letter (λ t. length t) acquire_slot refl answers

-- The offer is acknowledged and the confirmation ends the request.
ended :
    (client_steps parse_letter (λ t. length t) acquire_slot answers initial_client).settled
    ≡ some (resolved given)
unfolding client_steps client_step on_data on_lines on_line on_reply lines finish initial_client
    text_eq
ended = refl

abbrev settled_client : Client
settled_client = record { settled = some (resolved given); input = []; acknowledgements = 1 }

client_steps-Keeps_example :
    (client_steps parse_letter (λ t. length t) acquire_slot answers settled_client).settled
    ≡ some (resolved given)
client_steps-Keeps_example =
    client_steps-Keeps parse_letter (λ t. length t) acquire_slot answers settled_client
      (resolved given) refl
