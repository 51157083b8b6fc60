-- ===== src/Process.antt =====
-- extensions/ypi/internal/process-identity.ts: stable process identities.
-- What the operating system says of a process (its start identity) is the parameter `probe`.
use ypi.Prelude.{
  ℕ, Bool, false, Option, none, some, [], ◌∷◌, Text, text_eq, ltb, leb, if◌then◌else◌, ◌&&◌,
}

-- A JavaScript number: a natural number, -(n + 1), or one that is no integer.
pub data Number : Type 0 where
  nat : ℕ → Number
  negative : ℕ → Number
  inexact : Number

abbrev pub max_safe_integer : ℕ
max_safe_integer = 9007199254740991

-- `Number.isSafeInteger`.
abbrev pub is_safe_integer : Number → Bool
is_safe_integer (nat n) = leb n max_safe_integer
is_safe_integer (negative n) = ltb n max_safe_integer
is_safe_integer inexact = false

-- `Number.isSafeInteger(n) && n > 0`, with the value.
abbrev pub positive_integer : Number → Option ℕ
positive_integer (nat n) = if ltb 0 n && leb n max_safe_integer then some n else none
positive_integer (negative n) = none
positive_integer inexact = none

module _ (probe : ℕ → Option Text) where
  unfoldable pub process_start_identity : Number → Option Text
  process_start_identity pid = elim (positive_integer pid) [ none ↦ none | some n ↦ probe n ]

  abbrev same_identity : Option Text → Text → Bool
  same_identity none expected = false
  same_identity (some identity) expected = text_eq identity expected

  -- A missing or empty expectation matches nothing, and neither does a missing process number.
  unfoldable pub process_matches_start_identity : Option Number → Option Text → Bool
  unfolding process_start_identity
  process_matches_start_identity pid none = false
  process_matches_start_identity pid (some []) = false
  process_matches_start_identity none (some (c ∷ cs)) = false
  process_matches_start_identity (some pid) (some (c ∷ cs)) =
      same_identity (process_start_identity pid) (c ∷ cs)
