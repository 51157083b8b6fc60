-- ===== src/Coordinator/Client.antt =====
-- The client of the coordinator: `parseManifest`, `inheritedAuthority` and `requestCoordinator` of
-- extensions/ypi/internal/tree-coordinator.ts. `JSON.parse` on an answer is the parameter `parse`,
-- `Buffer.byteLength` is `byte_length`.
pub mod Waiting
pub mod Requests
pub mod Settled
mod Tests
use ypi.Prelude.{
  ℕ, ◌+◌, Bool, true, false, Option, none, some, [], ◌∷◌, Text, codes, text_eq, is_hex_token,
  is_absolute, if◌then◌else◌, not, ◌&&◌, ◌||◌,
}
use ypi.Process.{nat, positive_integer, is_safe_integer, process_matches_start_identity}
use ypi.Coordinator.Protocol.{Value, num, str, Operation, acquire_slot, resume_slot}
use ypi.Coordinator.Grants.{is_protocol_version}

pub data ClientError : Type 0 where
  manifest_not_object manifest_invalid authority_unavailable manifest_unreadable : ClientError
  authority_not_active root_not_live : ClientError
  cancelled expired unreachable closed_early : ClientError
  answer_too_long answer_invalid : ClientError
  refused : ℕ → ClientError

-- The manifest as it was parsed.
pub record ManifestFields : Type 0 where
  pub schema_version : Value
  pub generation : Value
  pub root_pid : Value
  pub root_process_identity : Value
  pub socket_path : Value
  pub status : Value
  pub created_at : Value

pub record Manifest : Type 0 where
  pub generation : Text
  pub root_pid : ℕ
  pub root_process_identity : Text
  pub socket_path : Text
  pub is_active : Bool

abbrev text_of : Value → Text
text_of (str t) = t
text_of _ = []

abbrev pid_of : Value → Option ℕ
pid_of (num n) = positive_integer n
pid_of _ = none

abbrev is_time : Value → Bool
is_time (num (nat n)) = is_safe_integer (nat n)
is_time _ = false

abbrev is_empty : Text → Bool
is_empty [] = true
is_empty (_ ∷ _) = false

abbrev is_status : Text → Bool
is_status t =
    text_eq t (codes "starting") || text_eq t (codes "active") || text_eq t (codes "terminal")

unfoldable pub parse_manifest : ManifestFields → Option Manifest
parse_manifest m = elim (pid_of m.root_pid) [
  | none ↦ none
  | some pid ↦
      if is_protocol_version m.schema_version
        && is_hex_token 32 (text_of m.generation)
        && not (is_empty (text_of m.root_process_identity))
        && is_absolute (text_of m.socket_path)
        && is_status (text_of m.status)
        && is_time m.created_at
      then some (record {
        generation = text_of m.generation;
        root_pid = pid;
        root_process_identity = text_of m.root_process_identity;
        socket_path = text_of m.socket_path;
        is_active = text_eq (text_of m.status) (codes "active");
      })
      else none
]

-- What the environment hands down; an absent variable is an empty text.
pub record Inherited : Type 0 where
  pub manifest_path : Text
  pub identity : Text
  pub generation : Text
  pub secret : Text
  pub socket_path : Text

-- What reading and parsing the manifest file gives.
pub data ManifestFile : Type 0 where
  unreadable not_object : ManifestFile
  object : ManifestFields → ManifestFile

pub data Authority : Type 0 where
  trusted : Manifest → Authority
  untrusted : ClientError → Authority

unfoldable pub inherited_authority : (ℕ → Option Text) → ManifestFile → Inherited → Authority
inherited_authority probe file env =
    if is_empty env.manifest_path
      || not (is_absolute env.manifest_path)
      || is_empty env.identity
      || not (is_hex_token 32 env.generation)
      || not (is_hex_token 64 env.secret)
      || is_empty env.socket_path
      || not (is_absolute env.socket_path)
    then untrusted authority_unavailable
    else elim file [
      | unreadable ↦ untrusted manifest_unreadable
      | not_object ↦ untrusted manifest_not_object
      | object fields ↦ elim (parse_manifest fields) [
        | none ↦ untrusted manifest_invalid
        | some manifest ↦
            if not (text_eq manifest.generation env.generation)
              || not (text_eq manifest.socket_path env.socket_path)
              || not manifest.is_active
            then untrusted authority_not_active
            else if process_matches_start_identity probe (some (nat manifest.root_pid))
                (some manifest.root_process_identity)
            then trusted manifest
            else untrusted root_not_live
      ]
    ]

pub data Phase : Type 0 where
  grant confirmed no_phase : Phase

-- An answer as it was parsed; `exit_code` is 1 where it is missing, `well_formed` whether the
-- version is right and `ok` is a Boolean.
pub record Reply : Type 0 where
  pub well_formed : Bool
  pub accepted : Bool
  pub exit_code : ℕ
  pub phase : Phase
  pub value : Option ℕ

pub data Settlement : Type 0 where
  resolved : Reply → Settlement
  rejected : ClientError → Settlement

-- The closure of one request: whether it is settled, what has arrived of a line, and the number of
-- acknowledgements written.
pub record Client : Type 0 where
  pub settled : Option Settlement
  pub input : Text
  pub acknowledgements : ℕ

unfoldable pub initial_client : Client
initial_client = record { settled = none; input = []; acknowledgements = 0 }

-- `finish`.
unfoldable pub finish : Settlement → Client → Client
finish s c = elim c.settled [ some _ ↦ c | none ↦ record c { settled = some s } ]

abbrev pub takes_slot : Operation → Bool
takes_slot acquire_slot = true
takes_slot resume_slot = true
takes_slot _ = false

-- One answer, while the request is open.
unfoldable pub on_reply : Operation → Reply → Client → Client
on_reply operation r c =
    if not r.well_formed
    then finish (rejected answer_invalid) c
    else if not r.accepted
    then finish (rejected (refused r.exit_code)) c
    else if takes_slot operation
    then elim r.phase [
      | grant ↦ record c { acknowledgements = c.acknowledgements + 1 }
      | confirmed ↦ finish (resolved r) c
      | no_phase ↦ finish (rejected answer_invalid) c
    ]
    else finish (resolved r) c
