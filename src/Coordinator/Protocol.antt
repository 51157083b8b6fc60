-- ===== src/Coordinator/Protocol.antt =====
-- The wire protocol of extensions/ypi/internal/tree-coordinator.ts: requests, answers, failures.
use ypi.Prelude.{
  ◌≡◌, refl, ◌⊎◌, inl, inr, ℕ, Bool, true, false, Option, none, some, Text, codes, text_eq,
  is_hex_token, if◌then◌else◌, leb, ltb,
}
use ypi.Process.{Number, nat, max_safe_integer}

-- A field of a parsed JSON object; an array or an object inside it is `composite`.
pub data Value : Type 0 where
  undefined null composite : Value
  bool : Bool → Value
  num : Number → Value
  str : Text → Value

pub data Reason : Type 0 where
  malformed_json request_not_object request_identity_invalid authority_terminal : Reason
  maximum_not_integer maximum_not_positive maximum_changed : Reason
  token_invalid slot_exists suspension_unavailable : Reason
  slot_unavailable not_slot_owner launch_slot_unavailable launch_identity_invalid : Reason
  max_calls_not_integer seed_not_integer counter_file_not_absolute counter_mismatch : Reason
  counter_path_changed call_configuration_changed max_calls_exceeded counter_write_failed : Reason
  unknown_operation protocol_bound : Reason

-- A thrown error with its exit code.
pub record Failure : Type 0 where
  pub reason : Reason
  pub exit_code : ℕ

abbrev pub fault : Reason → Failure
fault r = record { reason = r; exit_code = 1 }

-- Errors that end the caller's work, as a signal would.
abbrev pub fatal : Reason → Failure
fatal r = record { reason = r; exit_code = 130 }

pub data Result {ℓ} (A : Type ℓ) : Type ℓ where
  ok : A → Result A
  err : Failure → Result A

infixl 5 ◌>>=◌
abbrev pub ◌>>=◌ {ℓ κ} : {A : Type ℓ} {B : Type κ} → Result A → (A → Result B) → Result B
ok a >>= k = k a
err e >>= k = err e

abbrev pub require : Bool → Failure → Result (Unit {0})
require true e = ok tt
require false e = err e

infixl 5 ◌>>◌
abbrev pub ◌>>◌ {ℓ} : {B : Type ℓ} → Result (Unit {0}) → Result B → Result B
m >> k = m >>= λ _. k

unfoldable pub exact_non_negative_integer : Reason → Value → Result ℕ
exact_non_negative_integer r (num (nat n)) = if leb n max_safe_integer then ok n else err (fault r)
exact_non_negative_integer r _ = err (fault r)

unfoldable pub exact_positive_integer : Reason → Reason → Value → Result ℕ
unfolding exact_non_negative_integer
exact_positive_integer r small v = do
  parsed ← exact_non_negative_integer r v
  if ltb parsed 1 then err (fault small) else ok parsed

pub data Operation : Type 0 where
  check allocate_call acquire_slot release_slot suspend_slot resume_slot register_launch : Operation

-- The labels of the source's `switch`.
unfoldable pub operation_of : Text → Option Operation
unfolding text_eq
operation_of t =
    if text_eq t (codes "check")
    then some check
    else if text_eq t (codes "allocate-call")
    then some allocate_call
    else if text_eq t (codes "acquire-slot")
    then some acquire_slot
    else if text_eq t (codes "release-slot")
    then some release_slot
    else if text_eq t (codes "suspend-slot")
    then some suspend_slot
    else if text_eq t (codes "resume-slot")
    then some resume_slot
    else if text_eq t (codes "register-launch")
    then some register_launch
    else none

-- The fields of a request as they arrive. The token and the counter path are the only ones whose
-- declared type the handler takes on trust.
pub record Fields : Type 0 where
  pub schema_version : Value
  pub generation : Value
  pub secret : Value
  pub operation : Value
  pub pid : Value
  pub process_identity : Value
  pub token : Option Text
  pub child_pid : Value
  pub child_process_identity : Value
  pub maximum : Value
  pub seed_call_count : Value
  pub counter_file : Option Text

-- What `JSON.parse` makes of a line; `malformed` where it throws.
pub data Line : Type 0 where
  malformed not_object : Line
  object : Fields → Line

-- A request that has been authenticated.
pub record Request : Type 0 where
  pub operation : Text
  pub pid : ℕ
  pub process_identity : Text
  pub token : Option Text
  pub child_pid : Value
  pub child_process_identity : Value
  pub maximum : Value
  pub seed_call_count : Value
  pub counter_file : Option Text

pub data Response : Type 0 where
  done granted confirmed : Response
  value : ℕ → Response
  failed : Failure → Response

-- `/^[0-9a-f]{32}$/` on the request's token; an absent token fails too.
unfoldable pub require_slot_token : Request → Result Text
require_slot_token request = elim request.token [
  | none ↦ err (fault token_invalid)
  | some token ↦ if is_hex_token 32 token then ok token else err (fault token_invalid)
]

pub Result-cases {ℓ} :
    {A : Type ℓ} (r : Result A) → ((a : A) × (r ≡ ok a)) ⊎ ((e : Failure) × (r ≡ err e))
Result-cases (ok a) = inl (a, refl)
Result-cases (err e) = inr (e, refl)
