-- ===== src/Concurrency/Restoring.antt =====
-- The inherited slot comes back when the delegations have resumed.
use ypi.Prelude.{
  ℕ, zero, suc, ◌<◌, ◌≡◌, refl, ap, ◌∙◌, sym, subst, ◌⊎◌, inl, inr, Bool, true, false, Option, some,
  List, [], ◌∷◌, ◌++◌, Text, not, ◌&&◌, ◌||◌, All, any, all, arith, Bool-cases,
}
use ypi.Process.{Number, nat, negative, inexact}
use ypi.Concurrency.{
  Delegation, Nested, is_zero, configured_token, synchronize_inherited_token, join,
  suspend_inherited, leave, resume_at, resume, initial_nested, Transition, suspends, resumes,
  transition, transitions,
}
use ypi.Concurrency.Nesting.{
  open_count, IsSettled, IsAccounted, transition-IsAccounted, transitions-IsAccounted,
  resume-IsAccounted,
}

-- A delegation that took part and whose `resume` has not succeeded.
abbrev pub unresumed : Delegation → Bool
unresumed d = d.participates && not d.resumed

open_unresumed :
    (ds : List Delegation) → All IsSettled ds → 0 < open_count ds → any unresumed ds ≡ true
open_unresumed [] s h = absurd (omega arith)
open_unresumed (d ∷ ds) (s, ss) h = ground (arith, open_unresumed ds ss, s)

abbrev delegation : Bool → Bool → Bool → Delegation
delegation p r e = record { participates = p; participation_released = r; resumed = e }

abbrev Unresumed : Delegation × Number × Bool → Type 0
Unresumed (d, n, restored) = restored ≡ false → n ≡ nat 0 → unresumed d ≡ true

leave_cases :
    (granted : Bool) (token : Text) (n : Number) (p r e : Bool)
    → unresumed (delegation p r e) ≡ true
    → Unresumed (leave granted (some token) n (delegation p r e))
unfolding leave
leave_cases granted token n false r e h = absurd (cc)
leave_cases granted token n true r true h = absurd (cc)
leave_cases granted token (nat zero) true true false h = λ q z. ap not q
leave_cases granted token (nat (suc n)) true true false h = λ q z. absurd (ground arith)
leave_cases granted token (negative n) true true false h = λ q z. absurd (cc)
leave_cases granted token inexact true true false h = λ q z. absurd (cc)
leave_cases granted token (nat zero) true false false h = λ q z. refl
leave_cases granted token (nat (suc zero)) true false false h = λ q z. ap not q
leave_cases granted token (nat (suc (suc n))) true false false h = λ q z. absurd (ground arith)
leave_cases granted token (negative n) true false false h = λ q z. refl
leave_cases granted token inexact true false false h = λ q z. absurd (cc)

leave-unresumed :
    (granted : Bool) (token : Text) (n : Number) (d : Delegation)
    → (leave granted (some token) n d).2 ≡ false
    → (leave granted (some token) n d).1 ≡ nat 0
    → unresumed d ≡ true
    → unresumed (leave granted (some token) n d).0 ≡ true
leave-unresumed granted token n d q z h =
    leave_cases granted token n d.participates d.participation_released d.resumed h q z

resume_at-unresumed :
    (index : ℕ) (granted : Bool) (token : Text) (n : Number) (ds : List Delegation)
    → (resume_at index granted (some token) n ds).2 ≡ false
    → (resume_at index granted (some token) n ds).1 ≡ nat 0
    → any unresumed ds ≡ true
    → any unresumed (resume_at index granted (some token) n ds).0 ≡ true
unfolding resume_at
resume_at-unresumed index granted token n [] r z h = h
resume_at-unresumed zero granted token n (d ∷ ds) r z h =
    ground (arith, leave-unresumed granted token n d r z)
resume_at-unresumed (suc index) granted token n (d ∷ ds) r z h =
    ground (arith, resume_at-unresumed index granted token n ds r z)

any-append :
    (p : Delegation → Bool) (ds : List Delegation) (d : Delegation)
    → any p (ds ++ d ∷ []) ≡ (any p ds || p d)
any-append p [] d = ground arith
any-append p (e ∷ ds) d = ground (arith, any-append p ds d)

-- While the slot is away some delegation has not resumed; the token is fixed from the first one on.
record IsAwaited (token : Text) (s : Nested) : Type 0 where
  pub awaited : s.away ≡ true → any unresumed s.delegations ≡ true
  pub fixed : (s.delegations ≡ []) ⊎ (s.inherited_token ≡ some token)

resume_at_nobody :
    (index : ℕ) (granted : Bool) (inherited : Option Text) (n : Number) (ds : List Delegation)
    → ds ≡ []
    → (resume_at index granted inherited n ds).0 ≡ []
unfolding resume_at
resume_at_nobody index granted inherited n [] e = refl
resume_at_nobody index granted inherited n (d ∷ ds) e = absurd (cc)

-- After a transition that did not bring the slot back, some delegation still has to resume.
still_unresumed :
    (index : ℕ) (granted : Bool) (token : Text) (s : Nested) (m : ℕ)
    → s.inherited_token ≡ some token
    → open_count (resume_at index granted s.inherited_token s.nested_delegations s.delegations).0
      ≡ m
    → (resume_at index granted s.inherited_token s.nested_delegations s.delegations).1 ≡ nat m
    → All IsSettled (resume_at index granted s.inherited_token s.nested_delegations s.delegations).0
    → (resume_at index granted s.inherited_token s.nested_delegations s.delegations).2 ≡ false
    → any unresumed s.delegations ≡ true
    → any unresumed (resume_at index granted s.inherited_token s.nested_delegations s.delegations).0
      ≡ true
still_unresumed index granted token s (suc m) e c z settled q h =
    open_unresumed _ settled (omega arith)
still_unresumed index granted token s zero e c z settled q h =
    subst
      (λ i. any unresumed (resume_at index granted i s.nested_delegations s.delegations).0 ≡ true)
      (sym e)
      (resume_at-unresumed index granted token s.nested_delegations s.delegations
        (subst (λ i. (resume_at index granted i s.nested_delegations s.delegations).2 ≡ false) e q)
        (subst (λ i. (resume_at index granted i s.nested_delegations s.delegations).1 ≡ nat 0) e z)
        h)

resume-IsAwaited :
    (token : Text) (index : ℕ) (granted : Bool) (s : Nested)
    → IsAccounted (resume index granted s)
    → IsAwaited token s
    → IsAwaited token (resume index granted s)
unfolding resume
resume-IsAwaited token index granted s a w = elim w.fixed [
  | inl nobody ↦ record {
    awaited =
        λ h. absurd (cc (subst (λ ds. any unresumed ds ≡ true) nobody (w.awaited (ground arith))));
    fixed = inl (
        resume_at_nobody index granted s.inherited_token s.nested_delegations s.delegations nobody);
  }
  | inr e ↦ record {
    awaited = λ h.
        elim (Bool-cases
          (resume_at index granted s.inherited_token s.nested_delegations s.delegations).2) [
            | inl restored ↦ absurd (ground arith)
            | inr refused ↦
                still_unresumed index granted token s _ e refl a.count a.settled refused
                  (w.awaited (ground arith))
          ];
    fixed = inr e;
  }
]

-- Every delegation starts under this token.
abbrev pub StartsUnder : Text → Transition → Type 0
StartsUnder token (suspends configured granted) = configured ≡ some token
StartsUnder token (resumes index granted) = Unit {0}

module _ (token : Text) (valid : configured_token (some token) ≡ some (some token)) where
  join-IsAwaited :
      (granted : Bool) (s : Nested)
      → s.inherited_token ≡ some token
      → IsAwaited token s
      → IsAwaited token (join granted s)
  unfolding join
  join-IsAwaited granted s e w = elim (Bool-cases (is_zero s.nested_delegations)) [
    | inr busy ↦
        rw (e, busy, join)
          (record {
            awaited = λ h.
                ground (arith, any-append unresumed s.delegations (delegation true false false));
            fixed = inr e;
          })
    | inl free ↦ elim (Bool-cases granted) [
      | inl answered ↦
          rw (e, free, answered, join)
            (record {
              awaited = λ h.
                  ground (arith, any-append unresumed s.delegations (delegation true false false));
              fixed = inr e;
            })
      | inr refused ↦ rw (e, free, refused, join) w
    ]
  ]

  suspend-IsAwaited :
      (granted : Bool) (s : Nested)
      → IsAccounted s
      → IsAwaited token s
      → IsAwaited token (suspend_inherited (some token) granted s)
  unfolding suspend_inherited synchronize_inherited_token
  suspend-IsAwaited granted s a w = elim (Bool-cases (is_zero s.nested_delegations)) [
    | inl free ↦
        rw (free, valid, suspend_inherited, synchronize_inherited_token)
          (join-IsAwaited granted (record s { inherited_token = some token }) refl
            (record { awaited = w.awaited; fixed = inr refl }))
    | inr busy ↦ elim w.fixed [
      | inr e ↦
          rw (busy, suspend_inherited, synchronize_inherited_token) (join-IsAwaited granted s e w)
      | inl nobody ↦
          absurd (cc (sym busy ∙ ap is_zero (a.count ∙ ap (λ ds. nat (open_count ds)) nobody)))
    ]
  ]

  transition-IsAwaited :
      (t : Transition) (s : Nested)
      → StartsUnder token t
      → IsAccounted s
      → IsAwaited token s
      → IsAwaited token (transition t s)
  unfolding transition
  transition-IsAwaited (resumes index granted) s u a w =
      resume-IsAwaited token index granted s (resume-IsAccounted index granted s a) w
  transition-IsAwaited (suspends configured granted) s u a w =
      subst (λ c. IsAwaited token (suspend_inherited c granted s)) (sym u)
        (suspend-IsAwaited granted s a w)

  transitions-IsAwaited :
      (ts : List Transition) (s : Nested)
      → All (StartsUnder token) ts
      → IsAccounted s
      → IsAwaited token s
      → IsAwaited token (transitions ts s)
  unfolding transitions
  transitions-IsAwaited [] s u a w = w
  transitions-IsAwaited (t ∷ ts) s (v, u) a w =
      transitions-IsAwaited ts (transition t s) u (transition-IsAccounted t s a)
        (transition-IsAwaited t s v a w)

  nobody_unresumed :
      (ds : List Delegation)
      → all (λ (d : Delegation). d.resumed) ds ≡ true
      → any unresumed ds ≡ false
  nobody_unresumed [] h = refl
  nobody_unresumed (d ∷ ds) h = ground (arith, nobody_unresumed ds)

  initially : IsAwaited token initial_nested
  unfolding initial_nested
  initially = record { awaited = λ h. absurd (cc); fixed = inl refl }

  none_yet : IsAccounted initial_nested
  unfolding transitions
  none_yet = transitions-IsAccounted []

  -- Under one valid token, whatever the coordinator refuses in between: when every delegation's
  -- `resume` has succeeded, the inherited slot is no longer suspended.
  pub transitions_restore :
      (ts : List Transition)
      → All (StartsUnder token) ts
      → all (λ (d : Delegation). d.resumed) (transitions ts initial_nested).delegations ≡ true
      → (transitions ts initial_nested).away ≡ false
  transitions_restore ts u h = elim (Bool-cases (transitions ts initial_nested).away) [
    | inr home ↦ home
    | inl away ↦
        let w = transitions-IsAwaited ts initial_nested u none_yet initially in
        absurd (
          cc
            (sym (w.awaited away) ∙ nobody_unresumed (transitions ts initial_nested).delegations h))
  ]
