-- ===== src/LaunchGate/Tests.antt =====
-- Arguments of the launch gate.
use ypi.Prelude.{◌≡◌, refl, List, [], ◌∷◌, Text, codes, text_eq}
use ypi.Limits.{value_of}
use ypi.LaunchGate.{
  ok, err, GateError, GateRequest, flag_of, set_flag, take_flag, take_last, scan, finish_command,
  finish_owner, complete, parse_launch_gate_arguments,
}
use ypi.LaunchGate.Accepted.{IsComplete, IsBehind, parse_launch_gate_arguments-IsComplete}

abbrev arguments : List Text
arguments =
    codes "--owner-pid"
    ∷ codes "4711"
    ∷ codes "--owner-process-identity"
    ∷ codes "boot:1"
    ∷ codes "--pid-file"
    ∷ codes "/p"
    ∷ codes "--ready-file"
    ∷ codes "/r"
    ∷ codes "--"
    ∷ codes "pi"
    ∷ codes "--"
    ∷ codes "-p"
    ∷ []

abbrev request : GateRequest
request = record {
  pid_file = codes "/p";
  ready_file = codes "/r";
  owner_pid = 4711;
  owner_process_identity = codes "boot:1";
  command = codes "pi" ∷ codes "--" ∷ codes "-p" ∷ [];
}

parsed : parse_launch_gate_arguments arguments ≡ ok request
unfolding parse_launch_gate_arguments scan take_flag flag_of set_flag complete finish_owner
    finish_command value_of text_eq
parsed = refl

unpaired :
    parse_launch_gate_arguments (codes "--pid-file" ∷ codes "/p" ∷ codes "--" ∷ codes "pi" ∷ [])
    ≡ err GateError.unpaired_files
unfolding parse_launch_gate_arguments scan take_flag flag_of set_flag complete text_eq
unpaired = refl

valueless : parse_launch_gate_arguments (codes "--owner-pid" ∷ []) ≡ err GateError.missing_value
unfolding parse_launch_gate_arguments scan take_last flag_of text_eq
valueless = refl

parse-IsComplete_example : IsComplete request × IsBehind arguments request.command
parse-IsComplete_example = parse_launch_gate_arguments-IsComplete arguments request parsed
