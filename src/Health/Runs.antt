-- ===== src/Health/Runs.antt =====
-- What a run of probe results does to a backend's status: the counters of `HealthState` against
-- the rule that the last full streak of results decides.
use mathlib.Core.Logic.{ite}
use lb.Prelude.{
  Bool, List, [], arith, false, if◌then◌else◌, inl, inr, leb, refl, suc, true, ℕ, ◌<◌, ◌^◌, ◌∷◌,
  ◌≡◌, ◌≢◌, ◌⊎◌, none, some, ◌∙◌,
}
use lb.Types.Backend.{HealthStatus, unknown, healthy, unhealthy, HealthStatus-discrete}
use lb.Health.State.{HealthState, new, count, record_result, u32}

-- The state after a history of results, the newest first.
unfoldable pub after : ℕ → ℕ → List Bool → HealthState
after up down [] = new
after up down (r ∷ rs) = (record_result (after up down rs) r up down).0

-- The number of newest results that are all `r`.
unfoldable pub streak : Bool → List Bool → ℕ
streak r [] = 0
streak true (true ∷ rs) = suc (streak true rs)
streak true (false ∷ rs) = 0
streak false (true ∷ rs) = 0
streak false (false ∷ rs) = suc (streak false rs)

-- The rule: the newest streak that was as long as its threshold decides; none, and it is unknown.
unfoldable pub verdict : ℕ → ℕ → List Bool → HealthStatus
verdict up down [] = unknown
verdict up down (r ∷ rs) =
    if leb up (streak true (r ∷ rs))
    then healthy
    else if leb down (streak false (r ∷ rs))
    then unhealthy
    else verdict up down rs

-- The counters are the streaks, up to the wrap-around.
record Counts (up down : ℕ) (rs : List Bool) : Type 0 where
  status : (after up down rs).status ≡ verdict up down rs
  successes : (after up down rs).consecutive_successes ≡ u32 (streak true rs)
  failures : (after up down rs).consecutive_failures ≡ u32 (streak false rs)

record_result-counts :
    (h : HealthState) (r : Bool) (up down : ℕ)
    → ((record_result h r up down).0.consecutive_successes ≡ (count r h).consecutive_successes)
      × ((record_result h r up down).0.consecutive_failures ≡ (count r h).consecutive_failures)
unfolding record_result
record_result-counts h r up down = ground arith

reported :
    (h : HealthState) (r : Bool) (up down : ℕ)
    → (record_result h r up down).1
      ≡ ite
          (HealthStatus-discrete (record_result h r up down).0.status h.status)
          none
          (some (record_result h r up down).0.status)
unfolding record_result HealthStatus-discrete
reported h r up down = ground arith

module _ (up down : ℕ) (a : 0 < up) (a' : up < 2 ^ 32) (b : 0 < down) (b' : down < 2 ^ 32) where
  below_up : (rs : List Bool) → verdict up down rs ≢ healthy → streak true rs < up
  unfolding verdict
  below_up [] h = (unfold streak in omega arith)
  below_up (r ∷ rs) h = ground arith

  one_streak : (rs : List Bool) → (streak true rs ≡ 0) ⊎ (streak false rs ≡ 0)
  unfolding streak
  one_streak [] = inl refl
  one_streak (true ∷ rs) = inr refl
  one_streak (false ∷ rs) = inl refl

  below_down : (rs : List Bool) → verdict up down rs ≢ unhealthy → streak false rs < down
  unfolding verdict
  below_down [] h = (unfold streak in omega arith)
  below_down (r ∷ rs) h = ground (arith, one_streak (r ∷ rs))

  status_true :
      (rs : List Bool)
      → Counts up down rs
      → (after up down (true ∷ rs)).status ≡ verdict up down (true ∷ rs)
  unfolding after verdict record_result streak
  status_true rs c = ground (arith, below_up rs, c.status, c.successes)

  status_false :
      (rs : List Bool)
      → Counts up down rs
      → (after up down (false ∷ rs)).status ≡ verdict up down (false ∷ rs)
  unfolding after verdict record_result streak
  status_false rs c = ground (arith, below_down rs, c.status, c.failures)

  Counts-true : (rs : List Bool) → Counts up down rs → Counts up down (true ∷ rs)
  unfolding after streak count
  Counts-true rs c =
      let same = record_result-counts (after up down rs) true up down in
      record {
        status = status_true rs c;
        successes = same.0 ∙ omega (arith, c.successes);
        failures = same.1 ∙ omega arith;
      }

  Counts-false : (rs : List Bool) → Counts up down rs → Counts up down (false ∷ rs)
  unfolding after streak count
  Counts-false rs c =
      let same = record_result-counts (after up down rs) false up down in
      record {
        status = status_false rs c;
        successes = same.0 ∙ omega arith;
        failures = same.1 ∙ omega (arith, c.failures);
      }

  counts : (rs : List Bool) → Counts up down rs
  counts [] =
      (unfold after verdict streak new in
        record { status = refl; successes = refl; failures = refl })
  counts (true ∷ rs) = Counts-true rs (counts rs)
  counts (false ∷ rs) = Counts-false rs (counts rs)

  -- With thresholds above 0 that fit in 32 bits, and after any history however long, the status
  -- of the state machine is the verdict of the rule: the newest streak of results that reached
  -- its threshold decides, and where there was none the status is unknown.
  pub status-after : (rs : List Bool) → (after up down rs).status ≡ verdict up down rs
  status-after rs = (counts rs).status

  -- With thresholds above 0 that fit in 32 bits, and after any history: a result is reported
  -- exactly when it changes the verdict of the history, and what is reported is the new verdict.
  pub record_result-verdict :
      (r : Bool) (rs : List Bool)
      → (record_result (after up down rs) r up down).1
        ≡ ite
            (HealthStatus-discrete (verdict up down (r ∷ rs)) (verdict up down rs))
            none
            (some (verdict up down (r ∷ rs)))
  unfolding after
  record_result-verdict r rs =
      rw (← status-after (r ∷ rs), ← status-after rs) (reported (after up down rs) r up down)
