-- ===== src/Limits/Tests.antt =====
-- A minute's limit, half a minute after the start.
use ypi.Prelude.{refl, some, codes}
use ypi.Process.{nat}
use ypi.Limits.{
  value_of, exact_non_negative_integer, remaining_timeout_seconds, assert_timeout_available,
}
use ypi.Limits.Time.{IsTime, assert_timeout_available-IsTime}

assert_timeout_available-IsTime_example : IsTime (nat 30)
unfolding assert_timeout_available remaining_timeout_seconds exact_non_negative_integer value_of
assert_timeout_available-IsTime_example =
    assert_timeout_available-IsTime 130 (some (codes "60")) (some (codes "100")) (nat 30) refl
