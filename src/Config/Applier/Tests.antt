-- ===== src/Config/Applier/Tests.antt =====
-- An instance of the tables: a pool with an unhealthy and a drained backend, at table size 3.
use lb.Types.Net.{IpAddr, IpAddr-discrete, Bytes, v4}
use lb.Prelude.{
  Bool, [], arith, false, get_elem?, length, none, refl, some, suc, sym, true, zero, ℕ, ◌%◌, ◌<◌,
  ◌∙◌, ◌∷◌, ◌≡◌, ◌≢◌, ◌⊎◌,
}
use lb.Prelude.{ℕ_discrete}
use lb.Config.Applier.{
  Health, backends_for, pool_table, usable, is_usable, is_healthy, Backend, BackendPool, IpAddr,
  IpAddr-discrete, Bytes,
}
use lb.Config.Applier.Laws.{InService, AllOut, pool_table-lookup}
use lb.Hashing.Table.{active, usize_max, built, lookup, LookupTable}
use lb.Hashing.Prime.{IsPrime}
use lb.Hashing.Permutation.{Hasher}
use lb.Types.Backend.{unhealthy, Backend, BackendPool}

abbrev constant_hasher : Hasher
constant_hasher = record {
  xxh3_64_with_seed = λ s seed. 17;
  xxh3_64 = λ s. 17;
  with_seed-lt = λ s seed. omega arith;
  xxh3-lt = λ s. omega arith;
}

abbrev no_name : IpAddr → Bytes
no_name ip = []

abbrev address : ℕ → IpAddr
address d = v4 (record { a = 10; b = 0; c = 0; d = d })

abbrev backend : ℕ → Bool → Backend
backend d drain = record { ip = address d; port = 443; weight = 1; drain = drain }

abbrev pool : BackendPool
pool = record {
  id = 119 ∷ [];
  backends = backend 1 false ∷ backend 2 true ∷ backend 3 false ∷ [];
  health_check = none;
}

-- The first backend is unhealthy.
abbrev health : Health
health ip = elim (IpAddr-discrete ip (address 1)) [ yes _ ↦ some unhealthy | no _ ↦ none ]

one_left : active (backends_for health pool.backends) ≡ backend 3 false ∷ []
unfolding active backends_for usable is_usable is_healthy IpAddr-discrete ℕ_discrete
one_left = refl

three_IsPrime : IsPrime 3
three_IsPrime = record { above_one = omega arith; no_divisor = divisor }
  where
    divisor : (d : ℕ) → 1 < d → d < 3 → 3 % d ≢ 0
    divisor zero h k = absurd (omega arith)
    divisor (suc zero) h k = absurd (omega arith)
    divisor (suc (suc zero)) h k = omega arith
    divisor (suc (suc (suc d))) h k = absurd (omega arith)

few : length (active (backends_for health pool.backends)) < usize_max
few = rw one_left (omega arith)

some_left : active (backends_for health pool.backends) ≢ []
some_left e = let f : (backend 3 false ∷ []) ≡ [] = sym one_left ∙ e in cc

pool_table-lookup_example :
    (t : LookupTable) × (b : Backend) × (k : ℕ) × (pool_table constant_hasher no_name health pool 3
      ≡ built t)
    × (lookup t 99 ≡ some b)
    × (get_elem? pool.backends k ≡ some b)
    × (0 < b.weight)
    × (InService health b ⊎ AllOut health pool.backends)
pool_table-lookup_example =
    pool_table-lookup constant_hasher no_name health pool 3 99 three_IsPrime (omega arith) few
      some_left
