-- ===== src/Concurrency/Nesting.antt =====
-- The accounting of nested delegations against the coordinator's view of the slot.
use ypi.Prelude.{
  ℕ, zero, suc, ◌+◌, ◌≤◌, ◌<◌, ◌≡◌, refl, ap, ◌∙◌, sym, subst, inl, inr, Bool, true, false, Option,
  none, some, List, [], ◌∷◌, ◌++◌, Text, if◌then◌else◌, not, ◌&&◌, All, All-append, arith,
  Bool-cases, Option-cases,
}
use ypi.Process.{Number, nat, negative, inexact}
use ypi.Concurrency.{
  Delegation, Nested, increment, is_zero, configured_token, synchronize_inherited_token, join,
  suspend_inherited, leave, resume_at, resume, initial_nested, Transition, suspends, resumes,
  transition, transitions,
}

-- 1 for a delegation that keeps the slot away, 0 for one that does not.
abbrev pub opened : Delegation → ℕ
opened d = if d.participates && not d.participation_released then 1 else 0

abbrev pub open_count : List Delegation → ℕ
open_count [] = 0
open_count (d ∷ ds) = opened d + open_count ds

open_count-append :
    (ds es : List Delegation) → open_count (ds ++ es) ≡ open_count ds + open_count es
open_count-append [] es = omega arith
open_count-append (d ∷ ds) es = omega (arith, open_count-append ds es)

-- A delegation that has resumed keeps nothing away.
abbrev pub IsSettled : Delegation → Type 0
IsSettled d = d.resumed ≡ true → opened d ≡ 0

-- The number is that of the open delegations, and while there is one the slot is away.
pub record IsAccounted (s : Nested) : Type 0 where
  pub count : s.nested_delegations ≡ nat (open_count s.delegations)
  pub out : 0 < open_count s.delegations → s.away ≡ true
  pub known : s.inherited_token ≡ none → open_count s.delegations ≡ 0
  pub settled : All IsSettled s.delegations

abbrev Left : ℕ → Delegation → Delegation × Number × Bool → Type 0
Left k d (d', n, restored) =
    (n ≡ nat (k + opened d'))
    × IsSettled d'
    × (restored ≡ true → k + opened d' ≡ 0)
    × (opened d' ≤ opened d)

abbrev delegation : Bool → Bool → Bool → Delegation
delegation p r e = record { participates = p; participation_released = r; resumed = e }

leave_cases :
    (granted : Bool) (inherited : Option Text) (k n : ℕ) (p r e : Bool)
    → IsSettled (delegation p r e)
    → n ≡ k + opened (delegation p r e)
    → (inherited ≡ none → n ≡ 0)
    → Left k (delegation p r e) (leave granted inherited (nat n) (delegation p r e))
unfolding leave
leave_cases granted i k n true false true s c h = absurd (omega (arith, s refl))
leave_cases granted i k n true true true s c h = (ap nat c, (λ q. refl), (λ q. cc), omega arith)
leave_cases granted i k n false r true s c h = (ap nat c, (λ q. refl), (λ q. cc), omega arith)
leave_cases granted none k n true false false s c h = absurd (omega (arith, h refl))
leave_cases granted none k n true true false s c h = (ap nat c, (λ q. refl), (λ q. cc), omega arith)
leave_cases granted none k n false r false s c h = (ap nat c, (λ q. refl), (λ q. cc), omega arith)
leave_cases granted (some t) k n false r false s c h =
    (ap nat c, (λ q. refl), (λ q. cc), omega arith)
leave_cases granted (some t) k zero true false false s c h = absurd (omega arith)
leave_cases granted (some t) k (suc zero) true false false s c h =
    (ap nat (omega arith), (λ q. refl), (λ q. omega arith), omega arith)
leave_cases granted (some t) k (suc (suc n)) true false false s c h =
    (ap nat (omega arith), (λ q. refl), (λ q. cc), omega arith)
leave_cases granted (some t) k zero true true false s c h =
    (ap nat c, (λ q. refl), (λ q. omega arith), omega arith)
leave_cases granted (some t) k (suc n) true true false s c h =
    (ap nat c, (λ q. refl), (λ q. cc), omega arith)

leave_lem :
    (granted : Bool) (inherited : Option Text) (k n : ℕ) (d : Delegation)
    → IsSettled d
    → n ≡ k + opened d
    → (inherited ≡ none → n ≡ 0)
    → Left k d (leave granted inherited (nat n) d)
leave_lem granted i k n d s c h =
    leave_cases granted i k n d.participates d.participation_released d.resumed s c h

-- The same for a list, of which `k` open delegations stand before.
abbrev pub LeftAll : ℕ → List Delegation → List Delegation × Number × Bool → Type 0
LeftAll k ds (ds', n, restored) =
    (n ≡ nat (k + open_count ds'))
    × All IsSettled ds'
    × (restored ≡ true → k + open_count ds' ≡ 0)
    × (open_count ds' ≤ open_count ds)

pub resume_at_lem :
    (index : ℕ) (granted : Bool) (inherited : Option Text) (k n : ℕ) (ds : List Delegation)
    → All IsSettled ds
    → n ≡ k + open_count ds
    → (inherited ≡ none → n ≡ 0)
    → LeftAll k ds (resume_at index granted inherited (nat n) ds)
unfolding resume_at
resume_at_lem index granted i k n [] s c h = (ap nat c, tt, (λ q. cc), omega arith)
resume_at_lem zero granted i k n (d ∷ ds) (s, ss) c h =
    let (count, settled, restored, fewer) =
      leave_lem granted i (k + open_count ds) n d s (omega arith) h in
    (count ∙ ap nat (omega arith), (settled, ss), (λ q. omega (arith, restored q)), omega arith)
resume_at_lem (suc index) granted i k n (d ∷ ds) (s, ss) c h =
    let (count, settled, restored, fewer) =
      resume_at_lem index granted i (k + opened d) n ds ss (omega arith) h in
    (count ∙ ap nat (omega arith), (s, settled), (λ q. omega (arith, restored q)), omega arith)

-- The last delegation may have brought the slot back only when no other is open.
back :
    (away restored : Bool) (m : ℕ)
    → (0 < m → away ≡ true)
    → (restored ≡ true → 0 + m ≡ 0)
    → 0 < m
    → (away && not restored) ≡ true
back away true m a r h = absurd (omega (arith, r refl))
back away false m a r h = ground (arith, a h)

pub resume-IsAccounted :
    (index : ℕ) (granted : Bool) (s : Nested) → IsAccounted s → IsAccounted (resume index granted s)
unfolding resume
resume-IsAccounted index granted s a =
    let (count, settled, restored, fewer) =
      subst
        (λ n. LeftAll 0 s.delegations (resume_at index granted s.inherited_token n s.delegations))
        (sym a.count)
        (resume_at_lem index granted s.inherited_token 0 (open_count s.delegations) s.delegations
          a.settled (omega arith) a.known) in
    record {
      count = count ∙ ap nat (omega arith);
      out = λ h. back s.away _ _ (λ m. a.out (omega arith)) restored h;
      known = λ e. omega (arith, a.known e);
      settled = settled;
    }

pub is_zero-eq : (n : Number) → is_zero n ≡ true → n ≡ nat 0
is_zero-eq (nat zero) h = refl
is_zero-eq (nat (suc n)) h = absurd (cc)
is_zero-eq (negative n) h = absurd (cc)
is_zero-eq inexact h = absurd (cc)

nonzero : (n : ℕ) → is_zero (nat n) ≡ false → 0 < n
nonzero zero h = absurd (cc)
nonzero (suc n) h = omega arith

-- With no open delegation the token may change.
retoken :
    (token : Option Text) (s : Nested)
    → is_zero s.nested_delegations ≡ true
    → IsAccounted s
    → IsAccounted (record s { inherited_token = token })
retoken token s h a =
    let none_open : open_count s.delegations ≡ 0 =
      ground (arith, sym a.count ∙ is_zero-eq s.nested_delegations h) in
    record { count = a.count; out = a.out; known = λ e. none_open; settled = a.settled }

synchronize-IsAccounted :
    (configured : Option Text) (s t : Nested)
    → synchronize_inherited_token configured s ≡ some t
    → IsAccounted s
    → IsAccounted t
unfolding synchronize_inherited_token
synchronize-IsAccounted configured s t e a = elim (Bool-cases (is_zero s.nested_delegations)) [
  | inr busy ↦ subst IsAccounted (ground arith) a
  | inl free ↦ elim (Option-cases (configured_token configured)) [
    | inl invalid ↦ absurd (cc (rw (free, invalid, synchronize_inherited_token) at e))
    | inr (token, valid) ↦
        subst IsAccounted (ground (arith, rw (free, valid, synchronize_inherited_token) at e))
          (retoken token s free a)
  ]
]

joined :
    (s : Nested) (away : Bool) (token : Text)
    → s.inherited_token ≡ some token
    → away ≡ true
    → IsAccounted s
    → IsAccounted (record s {
      nested_delegations = increment s.nested_delegations;
      delegations =
          s.delegations
          ++ record { participates = true; participation_released = false; resumed = false } ∷ [];
      away = away;
    })
joined s away token e h a =
    let sum =
      open_count-append s.delegations
        (record { participates = true; participation_released = false; resumed = false } ∷ []) in
    record {
      count = ap increment a.count ∙ ap nat (omega (arith, sum));
      out = λ _. h;
      known = λ n. absurd (cc (sym e ∙ n));
      settled = All-append IsSettled s.delegations _ a.settled ((λ q. cc), tt);
    }

join-IsAccounted : (granted : Bool) (s : Nested) → IsAccounted s → IsAccounted (join granted s)
unfolding join
join-IsAccounted granted s a = go s.inherited_token refl
  where
    go : (token : Option Text) → s.inherited_token ≡ token → IsAccounted (join granted s)
    go none e =
        let sum =
          open_count-append s.delegations (
            record { participates = false; participation_released = false; resumed = false }
            ∷ []) in
        rw (e, join)
          (record {
            count = a.count ∙ ap nat (omega (arith, sum));
            out = λ h. a.out (omega (arith, sum));
            known = λ n. omega (arith, sum, a.known e);
            settled = All-append IsSettled s.delegations _ a.settled ((λ q. refl), tt);
          })
    go (some t) e = elim (Bool-cases (is_zero s.nested_delegations)) [
      | inr busy ↦
          rw (e, busy, join)
            (joined s s.away t e
              (a.out
                (nonzero (open_count s.delegations) (subst (λ n. is_zero n ≡ false) a.count busy)))
              a)
      | inl free ↦ elim (Bool-cases granted) [
        | inl answered ↦ rw (e, free, answered, join) (joined s true t e refl a)
        | inr refused ↦ rw (e, free, refused, join) a
      ]
    ]

pub transition-IsAccounted :
    (t : Transition) (s : Nested) → IsAccounted s → IsAccounted (transition t s)
unfolding transition suspend_inherited
transition-IsAccounted (resumes index granted) s a = resume-IsAccounted index granted s a
transition-IsAccounted (suspends configured granted) s a =
    elim (Option-cases (synchronize_inherited_token configured s)) [
      | inl threw ↦ rw (threw, suspend_inherited) a
      | inr (t, e) ↦
          rw (e, suspend_inherited)
            (join-IsAccounted granted t (synchronize-IsAccounted configured s t e a))
    ]

transitions_lem :
    (ts : List Transition) (s : Nested) → IsAccounted s → IsAccounted (transitions ts s)
unfolding transitions
transitions_lem [] s a = a
transitions_lem (t ∷ ts) s a = transitions_lem ts (transition t s) (transition-IsAccounted t s a)

-- However delegations start and end, with refusals by the coordinator and retries in between, the
-- number kept is that of the open delegations, so it never falls below zero, and as long as one is
-- open the inherited slot stays suspended.
pub transitions-IsAccounted : (ts : List Transition) → IsAccounted (transitions ts initial_nested)
unfolding initial_nested
transitions-IsAccounted ts =
    transitions_lem ts initial_nested
      (record { count = refl; out = λ h. absurd (omega arith); known = λ e. refl; settled = tt })
