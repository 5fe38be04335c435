-- ===== src/Hashing/Tests.antt =====
-- Tests of the lookup table at a small prime, and an instance of each of its properties.
use lb.Hashing.Build.{Weightless, IsFull, build-no_backends, build-IsFull, lookup-build}
use lb.Types.Backend.{Backend, name}
use lb.Types.Net.{IpAddr, Bytes}
use lb.Hashing.Prime.{IsPrime}
use lb.Prelude.{
  ℕ, List, length, ◌<◌, ◌≢◌, ◌≡◌, ◌*◌, [], arith, ◌+◌, ◌∷◌, ◌%◌, ◌↔◌, sym, ◌^◌, ◌∙◌, false,
  get_elem?, refl, some, suc, zero,
}
use lb.Hashing.Table.{
  build, start, outer_loop, lookup, active, usize_max, LookupTable, Outcome, build_active,
  pass_loop, built, chances_loop, no_backends, seek, take_slot, claimant, outcome,
}
use lb.Hashing.Permutation.{Hasher, offset, skip, preference}

sum : Bytes → ℕ
sum [] = 0
sum (x ∷ xs) = x + sum xs

-- A stand-in for the hash function.
abbrev toy_hasher : Hasher
toy_hasher = record {
  xxh3_64_with_seed = λ s seed. (sum s * 7 + seed) % 2 ^ 64;
  xxh3_64 = λ s. sum s % 2 ^ 64;
  with_seed-lt = λ s seed. omega arith;
  xxh3-lt = λ s. omega arith;
}

abbrev no_name : IpAddr → Bytes
no_name ip = []

abbrev backend : ℕ → ℕ → Backend
backend d weight = record {
  ip = IpAddr.v4 (record { a = 10; b = 0; c = 0; d = d });
  port = d;
  weight = weight;
  drain = false;
}

abbrev three : List Backend
three = backend 1 1 ∷ backend 2 0 ∷ backend 3 2 ∷ []

abbrev entries_of : Outcome → List ℕ
entries_of (built t) = t.entries
entries_of o = []

build_runs : entries_of (build toy_hasher no_name three 7) ≡ 0 ∷ 0 ∷ 1 ∷ 1 ∷ 0 ∷ 1 ∷ 1 ∷ []
unfolding build build_active outer_loop pass_loop chances_loop seek take_slot active start sum
    claimant offset skip preference name outcome
build_runs = refl

seven_IsPrime : IsPrime 7
seven_IsPrime = record { above_one = omega arith; no_divisor = divisor }
  where
    divisor : (d : ℕ) → 1 < d → d < 7 → 7 % d ≢ 0
    divisor zero h k = absurd (omega arith)
    divisor (suc zero) h k = absurd (omega arith)
    divisor (suc (suc zero)) h k = omega arith
    divisor (suc (suc (suc zero))) h k = omega arith
    divisor (suc (suc (suc (suc zero)))) h k = omega arith
    divisor (suc (suc (suc (suc (suc zero))))) h k = omega arith
    divisor (suc (suc (suc (suc (suc (suc zero)))))) h k = omega arith
    divisor (suc (suc (suc (suc (suc (suc (suc d))))))) h k = absurd (omega arith)

three-active : active three ≡ backend 1 1 ∷ backend 3 2 ∷ []
unfolding active
three-active = refl

few : length (active three) < usize_max
few = rw three-active (omega arith)

some_active : active three ≢ []
some_active e = let f : (backend 1 1 ∷ backend 3 2 ∷ []) ≡ [] = sym three-active ∙ e in cc

build-IsFull_example :
    (t : LookupTable) × (build toy_hasher no_name three 7 ≡ built t)
    × IsFull t
    × (t.backends ≡ active three)
    × (t.table_size ≡ 7)
build-IsFull_example =
    build-IsFull toy_hasher no_name 7 three seven_IsPrime (omega arith) few some_active

lookup-build_example :
    (t : LookupTable) × (b : Backend) × (k : ℕ) × (build toy_hasher no_name three 7 ≡ built t)
    × (lookup t 12345 ≡ some b)
    × (get_elem? three k ≡ some b)
    × (0 < b.weight)
lookup-build_example =
    lookup-build toy_hasher no_name 7 three 12345 seven_IsPrime (omega arith) few some_active

build-no_backends_example : (build toy_hasher no_name three 7 ≡ no_backends) ↔ Weightless three
build-no_backends_example = build-no_backends toy_hasher no_name 7 three
