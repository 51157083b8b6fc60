-- ===== src/Concurrency/Tests.antt =====
-- Runs of nested delegations under one token.
use ypi.Prelude.{◌≡◌, refl, true, false, some, List, [], ◌∷◌, codes, Text}
use ypi.Concurrency.{
  Transition, suspends, resumes, transition, transitions, initial_nested, suspend_inherited,
  synchronize_inherited_token, configured_token, join, resume, resume_at, leave,
}
use ypi.Concurrency.Nesting.{IsAccounted, transitions-IsAccounted}
use ypi.Concurrency.Restoring.{transitions_restore}

abbrev token : Text
token = codes "0123456789abcdef0123456789abcdef"

-- Two delegations; the last one to end is refused the slot once.
abbrev two : List Transition
two =
    suspends (some token) true
    ∷ suspends (some token) true
    ∷ resumes 0 true
    ∷ resumes 1 false
    ∷ resumes 1 true
    ∷ []

transitions-IsAccounted_example : IsAccounted (transitions two initial_nested)
transitions-IsAccounted_example = transitions-IsAccounted two

transitions_restore_example : (transitions two initial_nested).away ≡ false
unfolding transitions transition initial_nested suspend_inherited synchronize_inherited_token
    configured_token join resume resume_at leave
transitions_restore_example =
    transitions_restore token refl two (refl, (refl, (tt, (tt, (tt, tt))))) refl
