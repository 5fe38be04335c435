-- ===== src/Forwarder/Icmp/Tests.antt =====
-- An instance of the rate limit: four calls, of which the second opens a new window.
use lb.Prelude.{List, [], arith, ℕ, ◌*◌, ◌∷◌, ◌≤◌}
use lb.Forwarder.Icmp.{new}
use lb.Forwarder.Icmp.Laws.{granted, granted-second}

abbrev calls : List ℕ
calls = 500 ∷ 1000000100 ∷ 1000000200 ∷ 1000000300 ∷ []

granted-second_example : granted (new 2 0) calls ≤ 2 * 2
unfolding new
granted-second_example = granted-second (new 2 0) calls 500 (omega arith) (
  omega arith,
  omega arith,
  (omega arith, omega arith, (omega arith, omega arith, (omega arith, omega arith, tt))),
)
