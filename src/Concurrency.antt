-- ===== src/Concurrency.antt =====
-- extensions/ypi/internal/concurrency.ts: the slot that a child inherits is given up while it
-- delegates. `serializeTransition` runs one transition at a time, so each is one step here, with
-- the coordinator's answer as an argument. `away` records the answers: whether the coordinator
-- has suspended the inherited slot.
pub mod Nesting
pub mod Restoring
mod Tests
use ypi.Prelude.{
  ℕ, zero, suc, Bool, true, false, Option, none, some, List, [], ◌∷◌, ◌++◌, Text, is_hex_token,
  if◌then◌else◌, not, ◌&&◌,
}
use ypi.Process.{Number, nat, negative, inexact}

-- The closure that `suspendInheritedConcurrencySlot` returns.
pub record Delegation : Type 0 where
  pub participates : Bool
  pub participation_released : Bool
  pub resumed : Bool

pub record Nested : Type 0 where
  pub inherited_token : Option Text
  pub nested_delegations : Number
  pub delegations : List Delegation
  pub away : Bool

abbrev pub increment : Number → Number
increment (nat n) = nat (suc n)
increment (negative zero) = nat 0
increment (negative (suc n)) = negative n
increment inexact = inexact

abbrev pub decrement : Number → Number
decrement (nat zero) = negative 0
decrement (nat (suc n)) = nat n
decrement (negative n) = negative (suc n)
decrement inexact = inexact

abbrev pub is_zero : Number → Bool
is_zero (nat zero) = true
is_zero (nat (suc n)) = false
is_zero (negative n) = false
is_zero inexact = false

abbrev pub is_negative : Number → Bool
is_negative (negative n) = true
is_negative _ = false

-- `configured && !SLOT_TOKEN.test(configured)` throws; an empty text counts as none.
unfoldable pub configured_token : Option Text → Option (Option Text)
configured_token none = some none
configured_token (some []) = some none
configured_token (some (c ∷ cs)) = if is_hex_token 32 (c ∷ cs) then some (some (c ∷ cs)) else none

-- `synchronizeInheritedToken`; `none` where it throws.
unfoldable pub synchronize_inherited_token : Option Text → Nested → Option Nested
synchronize_inherited_token configured s =
    if is_zero s.nested_delegations
    then elim (configured_token configured) [
      | none ↦ none
      | some token ↦ some (record s { inherited_token = token })
    ]
    else some s

abbrev idle : Delegation
idle = record { participates = false; participation_released = false; resumed = false }

abbrev joined : Delegation
joined = record { participates = true; participation_released = false; resumed = false }

-- The rest of the transition, after the token is known.
unfoldable pub join : Bool → Nested → Nested
join granted s = elim s.inherited_token [
  | none ↦ record s { delegations = s.delegations ++ idle ∷ [] }
  | some token ↦
      if is_zero s.nested_delegations
      then (if granted
          then record s {
            nested_delegations = increment s.nested_delegations;
            delegations = s.delegations ++ joined ∷ [];
            away = true;
          }
          else s)
      else record s {
        nested_delegations = increment s.nested_delegations;
        delegations = s.delegations ++ joined ∷ [];
      }
]

-- `suspendInheritedConcurrencySlot`: where the transition throws no delegation is returned.
unfoldable pub suspend_inherited : Option Text → Bool → Nested → Nested
unfolding join
suspend_inherited configured granted s = elim (synchronize_inherited_token configured s) [
  | none ↦ s
  | some synchronized ↦ join granted synchronized
]

-- The transition of `resume` for one delegation: its new state, the number of nested delegations,
-- and whether the coordinator has restored the slot. `granted` says whether the request for the
-- slot succeeds, where it is made.
unfoldable pub leave : Bool → Option Text → Number → Delegation → Delegation × Number × Bool
leave granted inherited nested d = if d.resumed then (d, nested, false) else elim inherited [
  | none ↦ (record d { resumed = true }, nested, false)
  | some token ↦
      if not d.participates
      then (record d { resumed = true }, nested, false)
      else let left = if d.participation_released then nested else decrement nested in
        if not d.participation_released && is_negative left
        then (record d { participation_released = true }, left, false)
        else if is_zero left
        then (record d { participation_released = true; resumed = granted }, left, granted)
        else (record d { participation_released = true; resumed = true }, left, false)
]

-- `delegations[index].resume()`.
unfoldable pub resume_at :
    ℕ → Bool → Option Text → Number → List Delegation → List Delegation × Number × Bool
unfolding leave
resume_at index granted inherited nested [] = ([], nested, false)
resume_at zero granted inherited nested (d ∷ ds) =
    let (d', left, restored) = leave granted inherited nested d in (d' ∷ ds, left, restored)
resume_at (suc index) granted inherited nested (d ∷ ds) =
    let (ds', left, restored) = resume_at index granted inherited nested ds in
    (d ∷ ds', left, restored)

abbrev restore : Nested → List Delegation × Number × Bool → Nested
restore s (ds, left, restored) = record s {
  nested_delegations = left;
  delegations = ds;
  away = s.away && not restored;
}

unfoldable pub resume : ℕ → Bool → Nested → Nested
resume index granted s =
    restore s (resume_at index granted s.inherited_token s.nested_delegations s.delegations)

unfoldable pub initial_nested : Nested
initial_nested = record {
  inherited_token = none;
  nested_delegations = nat 0;
  delegations = [];
  away = false;
}

-- What happens: a delegation starts, under the token configured then, or one ends.
pub data Transition : Type 0 where
  suspends : Option Text → Bool → Transition
  resumes : ℕ → Bool → Transition

unfoldable pub transition : Transition → Nested → Nested
transition (suspends configured granted) s = suspend_inherited configured granted s
transition (resumes index granted) s = resume index granted s

unfoldable pub transitions : List Transition → Nested → Nested
transitions [] s = s
transitions (t ∷ ts) s = transitions ts (transition t s)
