-- ===== src/Health/Tests.antt =====
-- Tests of the health state machine, and an instance of each of its properties.
use mathlib.Core.Logic.{ite}
use lb.Prelude.{Bool, List, [], arith, false, none, refl, some, true, ◌∷◌, ◌≡◌}
use lb.Health.State.{new, record_result}
use lb.Health.Runs.{after, verdict, status-after, record_result-verdict}
use lb.Types.Backend.{unhealthy, unknown, HealthStatus-discrete}

-- Unit tests of the source; the newest result stands first.
unhealthy_again : (after 2 3 (true ∷ false ∷ false ∷ false ∷ [])).status ≡ unhealthy
unfolding after new record_result
unhealthy_again = refl

mixed_results : (after 3 3 (true ∷ false ∷ true ∷ false ∷ true ∷ false ∷ [])).status ≡ unknown
unfolding after new record_result
mixed_results = refl

abbrev history : List Bool
history = true ∷ true ∷ false ∷ []

status-after_example : (after 2 3 history).status ≡ verdict 2 3 history
status-after_example =
    status-after 2 3 (omega arith) (omega arith) (omega arith) (omega arith) history

record_result-verdict_example :
    (record_result (after 2 3 history) false 2 3).1
    ≡ ite
        (HealthStatus-discrete (verdict 2 3 (false ∷ history)) (verdict 2 3 history))
        none
        (some (verdict 2 3 (false ∷ history)))
record_result-verdict_example =
    record_result-verdict 2 3 (omega arith) (omega arith) (omega arith) (omega arith) false history
