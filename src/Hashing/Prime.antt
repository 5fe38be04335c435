-- ===== src/Hashing/Prime.antt =====
-- Arithmetic modulo a prime: every number below it but 0 has an inverse, so that a preference
-- list with such a skip visits every slot.
use native.Mathlib.Nat.{mod-lt, mod-eq_of_lt, div-add-mod, add-mul-mod_self_right}
use mathlib.Core.WellFounded
use lb.Prelude.{ℕ, ◌+◌, ◌-◌, ◌*◌, ◌/◌, ◌%◌, ◌<◌, ◌≡◌, ◌≢◌, sym, ap, ◌∙◌, arith, dec_lt}
use lb.Prelude.Order.{lt_wf}

pub record IsPrime (m : ℕ) : Type 0 where
  pub above_one : 1 < m
  pub no_divisor : (d : ℕ) → 1 < d → d < m → m % d ≢ 0

-- `s * u = 1 + k * m`.
pub record Inverse (m s : ℕ) : Type 0 where
  pub u : ℕ
  pub k : ℕ
  pub inverts : s * u ≡ 1 + k * m

-- From an inverse of `r`, where `m = s * q + r` and `s * q = w + 1`, one of `s`.
inverse_step :
    (m s q r w u k : ℕ)
    → s * q ≡ w + 1
    → m ≡ w + 1 + r
    → r * u ≡ 1 + k * m
    → s * (q * ((w + r) * u)) ≡ 1 + (w * u + k) * m
inverse_step m s q r w u k e f g =
    omega (arith, ap (λ (t : ℕ). t * ((w + r) * u)) e, ap (λ (t : ℕ). w * u * t) f, g)

Inverse-more :
    (m : ℕ)
    → IsPrime m
    → (s : ℕ) → 1 < s
    → s < m
    → ((r : ℕ) → r < s → 0 < r → r < m → Inverse m r)
    → Inverse m s
Inverse-more m p s one below smaller =
    let r = m % s in
    let q = m / s in
    let r_pos : 0 < r = omega (arith, p.no_divisor s one below) in
    let r_lt : r < s = mod-lt m (omega arith) in
    let whole : s * q + r ≡ m = div-add-mod m s in
    let i : Inverse m r = smaller r r_lt r_pos (omega arith) in
    let w = s * q - 1 in
    let product : s * q ≡ w + 1 = omega arith in
    record {
      u = q * ((w + r) * i.u);
      k = w * i.u + i.k;
      inverts = inverse_step m s q r w i.u i.k product (omega arith) i.inverts;
    }

-- The inverse of every number from 1 to `m - 1`, by the algorithm of Euclid.
pub inverse : (m : ℕ) → IsPrime m → (s : ℕ) → 0 < s → s < m → Inverse m s
inverse m p s =
    WellFounded.induction lt_wf {C = λ s. 0 < s → s < m → Inverse m s} s λ s smaller pos below.
      elim (dec_lt 1 s) [
        | yes one ↦ Inverse-more m p s one below smaller
        | no one ↦ record { u = 1; k = 0; inverts = omega arith }
      ]

-- `o + j * s` reaches the slot `c` modulo `m`.
solve :
    (m o s c u k : ℕ)
    → 0 < m
    → o < m
    → c < m
    → s * u ≡ 1 + k * m
    → (o + (((c + m - o) * u) % m) * s) % m ≡ c
solve m o s c u k pos below slot e =
    let d = c + m - o in
    let x = d * u in
    let y = o + x % m * s in
    let whole : m * (x / m) + x % m ≡ x = div-add-mod x m in
    let same : y + (x / m * s) * m ≡ c + (1 + d * k) * m =
      omega (arith, ap (λ (t : ℕ). t * s) whole, ap (λ (t : ℕ). d * t) e) in
    sym (add-mul-mod_self_right y (x / m * s) m)
    ∙ ap (λ (t : ℕ). t % m) same
    ∙ add-mul-mod_self_right c (1 + d * k) m
    ∙ mod-eq_of_lt slot

-- A list whose skip is from 1 to `m - 1` visits every slot.
pub reaches :
    (m o s c : ℕ)
    → IsPrime m
    → 0 < s
    → s < m
    → o < m
    → c < m
    → (j : ℕ) × (j < m) × ((o + j * s) % m ≡ c)
reaches m o s c p pos below inside slot =
    let i : Inverse m s = inverse m p s pos below in
    let above = p.above_one in
    (
      ((c + m - o) * i.u) % m,
      mod-lt _ (omega arith),
      solve m o s c i.u i.k (omega arith) inside slot i.inverts,
    )
