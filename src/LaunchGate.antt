-- ===== src/LaunchGate.antt =====
-- The arguments of the launch gate: `parseLaunchGateArguments` of
-- extensions/ypi/internal/launch-gate.ts. Every error has the exit code 2; its text is left out.
pub mod Accepted
mod Tests
use ypi.Prelude.{
  ℕ, Bool, true, false, ◌&&◌, ◌||◌, not, Option, none, some, List, [], ◌∷◌, Text, codes, text_eq,
  is_digit, all, ◌==◌, ltb, leb, if◌then◌else◌,
}
use ypi.Process.{max_safe_integer}
use ypi.Limits.{value_of}

pub data GateError : Type 0 where
  missing_value invalid_owner_pid unknown_argument : GateError
  unpaired_files owner_required command_required : GateError

pub data Parsed (A : Type 0) : Type 0 where
  ok : A → Parsed A
  err : GateError → Parsed A

pub record GateRequest : Type 0 where
  pub pid_file : Text
  pub ready_file : Text
  pub owner_pid : ℕ
  pub owner_process_identity : Text
  pub command : List Text

-- The variables of the loop.
pub record Seen : Type 0 where
  pub pid_file : Option Text
  pub ready_file : Option Text
  pub owner_pid : Option ℕ
  pub owner_process_identity : Option Text
  pub command : Option (List Text)

abbrev pub nothing_seen : Seen
nothing_seen = record {
  pid_file = none;
  ready_file = none;
  owner_pid = none;
  owner_process_identity = none;
  command = none;
}

abbrev pub dashes : Text
dashes = codes "--"

abbrev pub is_empty : {A : Type 0} → List A → Bool
is_empty [] = true
is_empty (_ ∷ _) = false

-- `/^[1-9][0-9]*$/`.
abbrev pub is_positive_decimal : Text → Bool
is_positive_decimal [] = false
is_positive_decimal (c ∷ t) = is_digit c && not (c == b'0') && all is_digit t

pub data Flag : Type 0 where
  pid_file ready_file owner_pid owner_process_identity : Flag

unfoldable pub flag_of : Text → Option Flag
flag_of argument =
    if text_eq argument (codes "--pid-file")
    then some Flag.pid_file
    else if text_eq argument (codes "--ready-file")
    then some Flag.ready_file
    else if text_eq argument (codes "--owner-pid")
    then some Flag.owner_pid
    else if text_eq argument (codes "--owner-process-identity")
    then some Flag.owner_process_identity
    else none

-- The body of a flag, with its value.
unfoldable pub set_flag : Flag → Text → Seen → Parsed Seen
set_flag Flag.pid_file value s = ok (record s { pid_file = some value })
set_flag Flag.ready_file value s = ok (record s { ready_file = some value })
set_flag Flag.owner_pid value s =
    if is_positive_decimal value
    then ok (record s { owner_pid = some (value_of 0 value) })
    else err GateError.invalid_owner_pid
set_flag Flag.owner_process_identity value s = ok (record s { owner_process_identity = some value })

abbrev pub and_then : {A B : Type 0} → Parsed A → (A → Parsed B) → Parsed B
and_then (ok a) k = k a
and_then (err e) k = err e

-- An argument and its value, and then the others.
unfoldable pub take_flag : Option Flag → Text → Seen → (Seen → Parsed Seen) → Parsed Seen
take_flag none value s rest = err GateError.unknown_argument
take_flag (some flag) value s rest =
    if is_empty value || text_eq value dashes
    then err GateError.missing_value
    else and_then (set_flag flag value s) rest

-- The last argument: a flag has no value there.
unfoldable pub take_last : Option Flag → Parsed Seen
take_last none = err GateError.unknown_argument
take_last (some flag) = err GateError.missing_value

-- The loop over the arguments.
unfoldable pub scan : Seen → List Text → Parsed Seen
scan s [] = ok s
scan s (argument ∷ []) =
    if text_eq argument dashes
    then ok (record s { command = some [] })
    else take_last (flag_of argument)
scan s (argument ∷ value ∷ more) =
    let flagged = take_flag (flag_of argument) value s (λ s. scan s more) in
    if text_eq argument dashes then ok (record s { command = some (value ∷ more) }) else flagged

abbrev pub is_given : Option Text → Bool
is_given none = false
is_given (some _) = true

-- `text || ""`.
abbrev pub or_empty : Option Text → Text
or_empty none = []
or_empty (some t) = t

unfoldable pub finish_command : Seen → ℕ → Text → Option (List Text) → Parsed GateRequest
finish_command s n identity none = err GateError.command_required
finish_command s n identity (some []) = err GateError.command_required
finish_command s n identity (some (c ∷ cs)) = ok record {
  pid_file = or_empty s.pid_file;
  ready_file = or_empty s.ready_file;
  owner_pid = n;
  owner_process_identity = identity;
  command = c ∷ cs;
}

unfoldable pub finish_owner : Seen → Option ℕ → Option Text → Parsed GateRequest
finish_owner s (some n) (some (c ∷ t)) =
    if leb n max_safe_integer && ltb 0 n
    then finish_command s n (c ∷ t) s.command
    else err GateError.owner_required
finish_owner s _ _ = err GateError.owner_required

-- The checks behind the loop.
unfoldable pub complete : Seen → Parsed GateRequest
complete s =
    if is_given s.pid_file && not (is_given s.ready_file)
      || not (is_given s.pid_file) && is_given s.ready_file
    then err GateError.unpaired_files
    else finish_owner s s.owner_pid s.owner_process_identity

unfoldable pub parse_launch_gate_arguments : List Text → Parsed GateRequest
parse_launch_gate_arguments arguments = and_then (scan nothing_seen arguments) complete
