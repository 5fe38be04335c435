-- ===== src/Forwarder/Icmp/Laws.antt =====
-- How many answers the limiter lets through.
-- Every time lies from `from` on and before `to`.
use lb.Forwarder.Icmp.{allow, IcmpRateLimiter, renew, second}
use lb.Prelude.{
  List, [], if◌then◌else◌, suc, ℕ, ◌<◌, ◌∷◌, ◌≤◌, Bool-cases, arith, inl, inr, leb, leb→le, refl,
  ◌+◌, ◌-◌, ◌/◌, ◌==◌, ◌≡◌, ltb, ltb→lt, ◌*◌,
}

abbrev pub AllWithin : ℕ → ℕ → List ℕ → Type 0
AllWithin from to [] = Unit
AllWithin from to (t ∷ ts) = (from ≤ t) × (t < to) × AllWithin from to ts

-- The answers allowed in a sequence of calls.
unfoldable pub granted : IcmpRateLimiter → List ℕ → ℕ
unfolding allow
granted r [] = 0
granted r (t ∷ ts) = let rest = granted (allow r t).0 ts in if (allow r t).1 then suc rest else rest

-- A call inside the window counts against what is left of it.
allow-inside : (r : IcmpRateLimiter) (t : ℕ) → t < r.window_start + second → renew r t ≡ r
unfolding renew
allow-inside r t h = elim (Bool-cases (leb 1 ((t - r.window_start) / second))) [
  | inl e ↦ absurd (let b = leb→le 1 ((t - r.window_start) / second) e in omega arith)
  | inr e ↦ (rw e refl)
]

-- While a window lasts, what it has counted and what it still grants is at most the limit.
granted-inside :
    (r : IcmpRateLimiter) (ts : List ℕ) (from : ℕ)
    → r.count ≤ r.max_per_second
    → AllWithin from (r.window_start + second) ts
    → r.count + granted r ts ≤ r.max_per_second
unfolding granted allow
granted-inside r [] from h w = omega arith
granted-inside r (t ∷ ts) from h (ge, lt', w) = elim (Bool-cases (r.max_per_second == 0)) [
  | inl z ↦ rw z (granted-inside r ts from h w)
  | inr z ↦
      rw (z, allow-inside r t lt')
        (elim (Bool-cases (ltb r.count r.max_per_second)) [
          | inl l ↦
              let lt = ltb→lt r.count r.max_per_second l in
              let ih = granted-inside (record r { count = r.count + 1 }) ts from (omega arith) w in
              rw l (omega arith)
          | inr l ↦ rw l (granted-inside r ts from h w)
        ])
]

AllWithin-widen :
    (from to to' : ℕ) (ts : List ℕ) → to ≤ to' → AllWithin from to ts → AllWithin from to' ts
AllWithin-widen from to to' [] h w = tt
AllWithin-widen from to to' (t ∷ ts) h (ge, lt', w) =
    (ge, omega arith, AllWithin-widen from to to' ts h w)

-- The window that the first call after it opens counts from 0.
renewed-bound :
    (r : IcmpRateLimiter) (t from : ℕ) (ts : List ℕ)
    → from ≤ t
    → AllWithin from (from + second) ts
    → granted (record r { count = 0; window_start = t }) ts ≤ r.max_per_second
renewed-bound r t from ts ge w =
    let widened = AllWithin-widen from (from + second) (t + second) ts (omega arith) w in
    let inside =
      granted-inside (record r { count = 0; window_start = t }) ts from (omega arith) widened in
    omega arith

bound-twice :
    (r : IcmpRateLimiter) (ts : List ℕ) (from : ℕ)
    → r.count ≤ r.max_per_second
    → AllWithin from (from + second) ts
    → r.count + granted r ts ≤ 2 * r.max_per_second
unfolding granted allow renew
bound-twice r [] from h w = omega arith
bound-twice r (t ∷ ts) from h (ge, lt', w) = elim (Bool-cases (r.max_per_second == 0)) [
  | inl z ↦ rw z (bound-twice r ts from h w)
  | inr z ↦ elim (Bool-cases (leb 1 ((t - r.window_start) / second))) [
    | inl over ↦
        rw (z, over)
          (elim (Bool-cases (ltb 0 r.max_per_second)) [
            | inl l ↦
                let lt = ltb→lt 0 r.max_per_second l in
                let widened =
                  AllWithin-widen from (from + second) (t + second) ts (omega arith) w in
                let inside =
                  granted-inside (record r { count = 1; window_start = t }) ts from (omega arith)
                    widened in
                rw l (omega arith)
            | inr l ↦ rw l (let b = renewed-bound r t from ts ge w in omega arith)
          ])
    | inr still ↦
        rw (z, still)
          (elim (Bool-cases (ltb r.count r.max_per_second)) [
            | inl l ↦
                let lt = ltb→lt r.count r.max_per_second l in
                let ih = bound-twice (record r { count = r.count + 1 }) ts from (omega arith) w in
                rw l (omega arith)
            | inr l ↦ rw l (bound-twice r ts from h w)
          ])
  ]
]

-- A limiter that has counted no more than its limit grants at most twice the limit to calls that
-- all lie within one second of each other, whenever its own window started.
pub granted-second :
    (r : IcmpRateLimiter) (ts : List ℕ) (from : ℕ)
    → r.count ≤ r.max_per_second
    → AllWithin from (from + second) ts
    → granted r ts ≤ 2 * r.max_per_second
granted-second r ts from h w = let b = bound-twice r ts from h w in omega arith
