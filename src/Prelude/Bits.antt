-- ===== src/Prelude/Bits.antt =====
-- `x & (2^k - 1)` is `x % 2^k`: the masks that the tables and the parsers use.
use Prim.Native.Nat.{
  ℕ, zero, suc, ◌+◌, ◌-◌, ◌*◌, ◌/◌, ◌%◌, ◌^◌, ◌≤◌, ◌<◌, min, bit_and, digits, bit_and-bitwise,
}
use mathlib.Core.Path.{◌≡◌, refl, sym, ◌∙◌}
use native.Mathlib.Nat.{pow-suc, mod-eq_of_lt}
use native.Mathlib.Omega.{arith}

-- The conjunction, over the digits of the first number with fuel.
abbrev conjunction : ℕ → ℕ → ℕ → ℕ
conjunction fuel x mask = digits (λ _. zero) min fuel x mask

pub pow_pos : (k : ℕ) → 0 < 2 ^ k
pow_pos zero = omega arith
pow_pos (suc k) = omega (arith, pow_pos k, pow-suc 2 k)

no_mask : (fuel x : ℕ) → conjunction fuel x 0 ≡ 0
no_mask zero x = refl
no_mask (suc fuel) zero = refl
no_mask (suc fuel) (suc x) = omega (arith, no_mask fuel (suc x / 2))

-- The remainder by `2 * m`, digit by digit.
mod_double : (x m : ℕ) → 0 < m → x % (2 * m) ≡ ((x / 2) % m) * 2 + x % 2
mod_double x m h = grind arith

-- A mask of `k + 1` ones has a one last, and a mask of `k` ones before it.
mask_half : (m : ℕ) → 0 < m → (2 * m - 1) / 2 ≡ m - 1
mask_half m h = omega arith

conjunction_mask : (k fuel x : ℕ) → x ≤ fuel → conjunction fuel x (2 ^ k - 1) ≡ x % 2 ^ k
conjunction_mask zero fuel x h = no_mask fuel x ∙ omega arith
conjunction_mask (suc k) zero x h =
    let small = mod-eq_of_lt {n = x} {m = 2 ^ suc k} (omega (arith, pow_pos (suc k))) in omega arith
conjunction_mask (suc k) (suc fuel) zero h = sym (mod-eq_of_lt (pow_pos (suc k)))
conjunction_mask (suc k) (suc fuel) (suc x) h =
    let m = 2 ^ k in
    let pos = pow_pos k in
    let double : 2 ^ suc k ≡ 2 * 2 ^ k = omega (arith, pow-suc 2 k) in
    let rest = conjunction_mask k fuel (suc x / 2) (omega arith) in
    rw (double, mod_double (suc x) m pos, mask_half m pos, rest) (omega arith)

pub bit_and-mask : (k x : ℕ) → bit_and x (2 ^ k - 1) ≡ x % 2 ^ k
bit_and-mask k x = bit_and-bitwise x (2 ^ k - 1) ∙ conjunction_mask k x x (omega arith)
