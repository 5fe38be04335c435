-- ===== src/Health/State.antt =====
-- crates/lb-health/src/state_machine.rs: `HealthState` and `record_result`.
use lb.Prelude.{Bool, ℕ, Option, ◌%◌, ◌+◌, some, if◌then◌else◌, ◌^◌, leb, none, false, true}
use lb.Types.Backend.{HealthStatus, unknown, healthy, unhealthy}

pub record HealthState : Type 0 where
  pub status : HealthStatus
  pub consecutive_successes : ℕ
  pub consecutive_failures : ℕ

unfoldable pub new : HealthState
new = record { status = unknown; consecutive_successes = 0; consecutive_failures = 0 }

-- The counters are `u32`.
abbrev pub u32 : ℕ → ℕ
u32 n = n % 2 ^ 32

-- The first `if` of `record_result`.
unfoldable pub count : Bool → HealthState → HealthState
count true h = record h {
  consecutive_successes = u32 (h.consecutive_successes + 1);
  consecutive_failures = 0;
}
count false h = record h {
  consecutive_failures = u32 (h.consecutive_failures + 1);
  consecutive_successes = 0;
}

-- `Some(new_status)` beside the new state, or `None` beside the old one.
unfoldable pub become : HealthStatus → HealthState → HealthState × Option HealthStatus
become s h = (record h { status = s }, some s)

-- The `match` on the status.
unfoldable pub transition : HealthStatus → ℕ → ℕ → HealthState → HealthState × Option HealthStatus
unfolding become
transition unknown up down h =
    if leb up h.consecutive_successes
    then become healthy h
    else if leb down h.consecutive_failures
    then become unhealthy h
    else (h, none)
transition healthy up down h =
    if leb down h.consecutive_failures then become unhealthy h else (h, none)
transition unhealthy up down h =
    if leb up h.consecutive_successes then become healthy h else (h, none)

unfoldable pub record_result : HealthState → Bool → ℕ → ℕ → HealthState × Option HealthStatus
unfolding count transition
record_result h success up down = transition h.status up down (count success h)
