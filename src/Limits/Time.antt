-- ===== src/Limits/Time.antt =====
-- The time that a call may still take.
use ypi.Prelude.{
  ℕ, ◌-◌, ◌≤◌, ◌<◌, ◌≡◌, refl, sym, false, Option, none, some, [], ◌∷◌, Text, leb, ltb, arith,
  Bool-cases, inl, inr,
}
use ypi.Process.{Number, nat, negative, inexact}
use ypi.Limits.{
  Limit, ok, err, minus, exact_non_negative_integer, start_time, remaining_timeout_seconds,
  require_time, assert_timeout_available, max_timeout_seconds,
}

minus-nat : (m n k : ℕ) → minus m n ≡ nat k → k ≤ m
minus-nat m n k h = elim (Bool-cases (leb n m)) [
  | inl e ↦ ground arith
  | inr e ↦ absurd (ground arith)
]

minus_inexact : (m n : ℕ) → minus m n ≡ inexact → ⊥
minus_inexact m n h = ground arith

-- The result of the test: time is left, and no more than the longest timeout.
abbrev pub IsTime : Number → Type 0
IsTime r = (n : ℕ) × (r ≡ nat n) × (0 < n) × (n ≤ max_timeout_seconds)

remaining_lem :
    (now : ℕ) (timeout start : Option Text) (r : Number)
    → remaining_timeout_seconds now timeout start ≡ ok (some r)
    → (t e : ℕ) × (r ≡ minus t e) × (t ≤ max_timeout_seconds)
unfolding remaining_timeout_seconds
remaining_lem now none start r h = absurd (cc)
remaining_lem now (some []) start r h = absurd (cc)
remaining_lem now (some (c ∷ cs)) start r h =
    go (exact_non_negative_integer (c ∷ cs)) refl (start_time now start) refl
  where
    begun :
        (timeout : ℕ)
        → exact_non_negative_integer (c ∷ cs) ≡ ok timeout
        → ltb max_timeout_seconds timeout ≡ false
        → (s : Limit ℕ) → start_time now start ≡ s
        → (t e : ℕ) × (r ≡ minus t e) × (t ≤ max_timeout_seconds)
    begun timeout p fits (err e) q = absurd (cc (rw (p, fits, q, remaining_timeout_seconds) at h))
    begun timeout p fits (ok begin) q = (
      timeout,
      now - begin,
      ground (arith, rw (p, fits, q, remaining_timeout_seconds) at h),
      ground arith,
    )

    go :
        (x : Limit ℕ)
        → exact_non_negative_integer (c ∷ cs) ≡ x
        → (s : Limit ℕ) → start_time now start ≡ s
        → (t e : ℕ) × (r ≡ minus t e) × (t ≤ max_timeout_seconds)
    go (err e) p s q = absurd (cc (rw (p, remaining_timeout_seconds) at h))
    go (ok timeout) p s q = elim (Bool-cases (ltb max_timeout_seconds timeout)) [
      | inl long ↦ absurd (cc (rw (p, long, remaining_timeout_seconds) at h))
      | inr fits ↦ begun timeout p fits s q
    ]

-- A call that passes the test of the time limit has between one second and the longest supported
-- timeout left, whatever the clock and the recorded start say.
pub assert_timeout_available-IsTime :
    (now : ℕ) (timeout start : Option Text) (r : Number)
    → assert_timeout_available now timeout start ≡ ok (some r)
    → IsTime r
unfolding assert_timeout_available
assert_timeout_available-IsTime now timeout start r h =
    go (remaining_timeout_seconds now timeout start) refl
  where
    number :
        (n : Number)
        → (t e : ℕ) × (n ≡ minus t e) × (t ≤ max_timeout_seconds)
        → require_time (some n) ≡ ok (some r)
        → IsTime r
    number (nat n) (t, e, k, b) q =
        (n, ground (arith, q), ground (arith, q), ground (arith, minus-nat t e n (sym k)))
    number (negative n) x q = absurd (cc)
    number inexact x q = absurd (cc)

    go : (x : Limit (Option Number)) → remaining_timeout_seconds now timeout start ≡ x → IsTime r
    go (err e) p = absurd (cc (rw (p, assert_timeout_available) at h))
    go (ok none) p = absurd (cc (rw (p, assert_timeout_available) at h))
    go (ok (some n)) p =
        number n (remaining_lem now timeout start n p) (rw (p, assert_timeout_available) at h)
