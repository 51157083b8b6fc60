-- ===== src/Prelude/Decimal.antt =====
-- Numbers as decimal text.
use Prim.Native.Nat.{ℕ, zero, suc, ◌+◌, ◌-◌, ◌*◌, ◌/◌, ◌%◌, ◌<◌, ◌≤◌}
use mathlib.Core.Path.{◌≡◌, sym, ap, ◌∙◌}
use mathlib.Core.Logic.{inl, inr}
use mathlib.Core.List.{[], ◌∷◌, ◌++◌}
use native.Mathlib.Omega.{arith}
use ypi.Prelude.Tests.{ltb, if◌then◌else◌, Bool-cases}
use ypi.Prelude.Texts.{Text}

-- The digits of `n` in front of `acc`; the fuel counts the digits that may still come.
unfoldable pub digits_from : ℕ → ℕ → Text → Text
digits_from zero n acc = acc
digits_from (suc fuel) n acc =
    let more = digits_from fuel (n / 10) ((b'0' + n % 10) ∷ acc) in
    if ltb n 10 then (b'0' + n) ∷ acc else more

-- `String(n)`; `n + 1` digits are enough.
unfoldable pub decimal : ℕ → Text
unfolding digits_from
decimal n = digits_from (suc n) n []

-- The line `${n}\n`.
unfoldable pub decimal_line : ℕ → Text
unfolding decimal
decimal_line n = decimal n ++ 10 ∷ []

-- The number that digits spell behind a number.
abbrev spelled : ℕ → Text → ℕ
spelled a [] = a
spelled a (c ∷ t) = spelled (a * 10 + (c - b'0')) t

digits_from-spelled :
    (fuel n : ℕ) (acc : Text) → n < fuel → spelled 0 (digits_from fuel n acc) ≡ spelled n acc
unfolding digits_from
digits_from-spelled zero n acc h = absurd (omega (arith, h))
digits_from-spelled (suc fuel) n acc h = elim (Bool-cases (ltb n 10)) [
  | inl small ↦ rw small (ap (λ k. spelled k acc) (omega arith))
  | inr large ↦
      let big : 10 ≤ n = ground arith in
      rw large (
        digits_from-spelled fuel (n / 10) ((b'0' + n % 10) ∷ acc) (omega (arith, big))
        ∙ ap (λ k. spelled k acc) (omega (arith, big)))
]

-- Numbers with the same text are the same.
pub decimal-injective : (m n : ℕ) → decimal m ≡ decimal n → m ≡ n
unfolding decimal
decimal-injective m n e =
    sym (digits_from-spelled (suc m) m [] (omega arith))
    ∙ ap (spelled 0) e
    ∙ digits_from-spelled (suc n) n [] (omega arith)
