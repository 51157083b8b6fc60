-- ===== src/Limits.antt =====
-- Limits read from the environment: depth (extensions/ypi/env.ts), calls and time
-- (extensions/ypi/guardrails.ts), and slots (extensions/ypi/internal/concurrency.ts). The clock is
-- the argument `now`, in seconds; an absent variable is `none`.
pub mod Time
mod Tests
use ypi.Prelude.{
  ℕ, ◌+◌, ◌-◌, ◌*◌, Bool, true, false, Option, none, some, [], ◌∷◌, Text, codes, is_digit,
  is_hex_token, all, if◌then◌else◌, ◌&&◌, ltb, leb,
}
use ypi.Process.{Number, nat, negative, inexact, max_safe_integer}

pub data LimitError : Type 0 where
  not_integer unsafe_integer timeout_too_long timeout_exceeded calls_exceeded : LimitError
  token_invalid released_before_registration pid_invalid : LimitError

pub data Limit {ℓ} (A : Type ℓ) : Type ℓ where
  ok : A → Limit A
  err : LimitError → Limit A

infixl 5 ◌>>=◌
abbrev pub ◌>>=◌ {ℓ κ} : {A : Type ℓ} {B : Type κ} → Limit A → (A → Limit B) → Limit B
ok a >>= k = k a
err e >>= k = err e

-- The number that decimal digits write.
unfoldable pub value_of : ℕ → Text → ℕ
value_of n [] = n
value_of n (c ∷ cs) = value_of (n * 10 + (c - b'0')) cs

abbrev is_number : Text → Bool
is_number [] = false
is_number (c ∷ cs) = all is_digit (c ∷ cs)

-- `exactNonNegativeInteger` of guardrails.ts.
unfoldable pub exact_non_negative_integer : Text → Limit ℕ
exact_non_negative_integer t =
    if is_number t
    then (if leb (value_of 0 t) max_safe_integer then ok (value_of 0 t) else err unsafe_integer)
    else err not_integer

-- `value || fallback`.
abbrev or_default : Option Text → Text → Text
or_default none t = t
or_default (some []) t = t
or_default (some (c ∷ cs)) t = c ∷ cs

-- `currentDepth` and `maxDepth` of env.ts; `none` is `NaN`.
unfoldable pub depth_of : Option Text → Text → Option ℕ
depth_of value fallback =
    elim (exact_non_negative_integer (elim value [ none ↦ fallback | some t ↦ t ])) [
      | ok n ↦ some n
      | err e ↦ none
    ]

-- `shouldExposeRecursion`, from `RLM_DEPTH` and `RLM_MAX_DEPTH`.
unfoldable pub should_expose_recursion : Option Text → Option Text → Bool
should_expose_recursion depth max_depth = elim (depth_of depth (codes "0")) [
  | none ↦ true
  | some d ↦ elim (depth_of max_depth (codes "3")) [ none ↦ true | some limit ↦ ltb d limit ]
]

-- What `allocateCallCount` sends: the limit and the count so far.
unfoldable pub call_limits : Option Text → Option Text → Limit (ℕ × ℕ)
call_limits max_calls call_count = do
  maximum ← exact_non_negative_integer (or_default max_calls (codes "65536"))
  seed ← exact_non_negative_integer (or_default call_count (codes "0"))
  ok (maximum, seed)

-- `assertWithinMaxCalls`; an unset limit is none.
unfoldable pub assert_within_max_calls : Option Text → ℕ → Limit (Unit {0})
assert_within_max_calls none call_count = ok tt
assert_within_max_calls (some []) call_count = ok tt
assert_within_max_calls (some (c ∷ cs)) call_count =
    exact_non_negative_integer (c ∷ cs) >>= λ max_calls.
    if ltb max_calls call_count then err calls_exceeded else ok tt

-- `Math.floor(2_147_483_647 / 1000)`.
abbrev pub max_timeout_seconds : ℕ
max_timeout_seconds = 2147483

-- `timeout - elapsed`, which may be negative.
abbrev pub minus : ℕ → ℕ → Number
minus m n = if leb n m then nat (m - n) else negative (n - m - 1)

-- The start is `RLM_START_TIME || now`, and the time elapsed is not negative.
abbrev start_time : ℕ → Option Text → Limit ℕ
start_time now none = ok now
start_time now (some []) = ok now
start_time now (some (c ∷ cs)) = exact_non_negative_integer (c ∷ cs)

unfoldable pub remaining_timeout_seconds : ℕ → Option Text → Option Text → Limit (Option Number)
remaining_timeout_seconds now none start = ok none
remaining_timeout_seconds now (some []) start = ok none
remaining_timeout_seconds now (some (c ∷ cs)) start =
    exact_non_negative_integer (c ∷ cs) >>= λ timeout.
    if ltb max_timeout_seconds timeout
    then err timeout_too_long
    else (start_time now start >>= λ s. ok (some (minus timeout (now - s))))

abbrev is_positive : Number → Bool
is_positive (nat n) = ltb 0 n
is_positive _ = false

abbrev require_time : Option Number → Limit (Option Number)
require_time none = ok none
require_time (some n) = if is_positive n then ok (some n) else err timeout_exceeded

unfoldable pub assert_timeout_available : ℕ → Option Text → Option Text → Limit (Option Number)
assert_timeout_available now timeout start =
    remaining_timeout_seconds now timeout start >>= require_time

abbrev leading_digit : Text → Bool
leading_digit [] = false
leading_digit (c ∷ cs) = leb b'1' c && leb c b'9' && all is_digit cs

-- `configuredMaximum` of concurrency.ts.
unfoldable pub configured_maximum : Option Text → Limit ℕ
configured_maximum value =
    let raw = or_default value (codes "3") in
    if leading_digit raw
    then (if leb (value_of 0 raw) max_safe_integer then ok (value_of 0 raw) else err unsafe_integer)
    else err not_integer

-- The request of `acquireSlotWithToken`: the token and the limit.
unfoldable pub acquire_slot_with_token : Text → Option Text → Limit (Text × ℕ)
acquire_slot_with_token token value =
    if is_hex_token 32 token
    then (configured_maximum value >>= λ maximum. ok (token, maximum))
    else err token_invalid

-- `noteChildPid` of the lease; `released` tells whether `release` was called.
unfoldable pub note_child_pid : Bool → Number → Limit (Unit {0})
note_child_pid released pid = if released then err released_before_registration else elim pid [
  | nat n ↦ if ltb 0 n && leb n max_safe_integer then ok tt else err pid_invalid
  | negative n ↦ err pid_invalid
  | inexact ↦ err pid_invalid
]
