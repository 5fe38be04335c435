-- ===== src/Config/Applier/Laws.antt =====
-- Which backends the traffic of a pool can reach.
use lb.Hashing.Build.{lookup-build}
use lb.Hashing.Prime.{IsPrime}
use lb.Types.Net.{IpAddr, Bytes}
use lb.Hashing.Permutation.{Hasher}
use lb.Types.Backend.{Backend, BackendPool}
use lb.Prelude.{
  Bool-cases, List, [], get_elem?, inl, inr, length, refl, some, suc, true, zero, ℕ, ◌<◌, ◌^◌, ◌∷◌,
  ◌≡◌, ◌≢◌, ◌⊎◌,
}
use lb.Types.Backend.{HealthStatus, unhealthy, healthy, unknown}
use lb.Prelude.{Option, none, false}
use lb.Config.Applier.{
  is_healthy, usable, is_usable, backends_for, pool_table, Health, Hasher, Backend, IpAddr, Bytes,
  BackendPool,
}
use lb.Hashing.Table.{active, usize_max, built, lookup, LookupTable}

usable_elem :
    (health : Health) (bs : List Backend) (i : ℕ) (b : Backend)
    → get_elem? (usable health bs) i ≡ some b
    → (is_usable health b ≡ true) × ((k : ℕ) × (get_elem? bs k ≡ some b))
unfolding usable
usable_elem health [] i b e = cc
usable_elem health (x ∷ bs) i b e = elim (Bool-cases (is_usable health x)) [
  | inl t ↦ kept i t (usable_elem health bs) (rw t at e)
  | inr t ↦ let (u, rest) = usable_elem health bs i b (rw t at e) in (u, (suc rest.0, rest.1))
]
  where
    kept :
        (i : ℕ)
        → is_usable health x ≡ true
        → ((i : ℕ) (b : Backend)
            → get_elem? (usable health bs) i ≡ some b
            → (is_usable health b ≡ true) × ((k : ℕ) × (get_elem? bs k ≡ some b)))
        → get_elem? (x ∷ usable health bs) i ≡ some b
        → (is_usable health b ≡ true) × ((k : ℕ) × (get_elem? (x ∷ bs) k ≡ some b))
    kept zero t more e = let same : x ≡ b = cc in (rw (← same) t, (0, e))
    kept (suc i) t more e = let (u, rest) = more i b e in (u, (suc rest.0, rest.1))

-- Neither drained nor found unhealthy.
abbrev pub InService : Health → Backend → Type 0
InService health b = (b.drain ≡ false) × (health b.ip ≢ some unhealthy)

-- Every backend is drained or unhealthy.
unfoldable pub AllOut : Health → List Backend → Type 0
AllOut health [] = Unit
AllOut health (b ∷ bs) = ((b.drain ≡ true) ⊎ (health b.ip ≡ some unhealthy)) × AllOut health bs

is_healthy-true : (s : Option HealthStatus) → is_healthy s ≡ true → s ≢ some unhealthy
unfolding is_healthy
is_healthy-true none h e = cc
is_healthy-true (some unhealthy) h e = cc
is_healthy-true (some healthy) h e = cc
is_healthy-true (some unknown) h e = cc

is_healthy-false : (s : Option HealthStatus) → is_healthy s ≡ false → s ≡ some unhealthy
unfolding is_healthy
is_healthy-false none h = absurd (cc h)
is_healthy-false (some unhealthy) h = refl
is_healthy-false (some healthy) h = absurd (cc h)
is_healthy-false (some unknown) h = absurd (cc h)

is_usable-InService :
    (health : Health) (b : Backend) → is_usable health b ≡ true → InService health b
unfolding is_usable
is_usable-InService health b h = elim (Bool-cases b.drain) [
  | inl t ↦ absurd (let e = rw t at h in cc e)
  | inr t ↦ (t, is_healthy-true (health b.ip) (rw t at h))
]

is_usable-out :
    (health : Health) (b : Backend)
    → is_usable health b ≡ false
    → (b.drain ≡ true) ⊎ (health b.ip ≡ some unhealthy)
unfolding is_usable
is_usable-out health b h = elim (Bool-cases b.drain) [
  | inl t ↦ inl t
  | inr t ↦ inr (is_healthy-false (health b.ip) (rw t at h))
]

usable-AllOut : (health : Health) (bs : List Backend) → usable health bs ≡ [] → AllOut health bs
unfolding usable AllOut
usable-AllOut health [] e = tt
usable-AllOut health (b ∷ bs) e = elim (Bool-cases (is_usable health b)) [
  | inl t ↦ absurd (let f = rw t at e in cc f)
  | inr t ↦ (is_usable-out health b t, usable-AllOut health bs (rw t at e))
]

List-cases {ℓ} : {A : Type ℓ} (xs : List A) → (xs ≡ []) ⊎ ((y : A) × (ys : List A) × (xs ≡ y ∷ ys))
List-cases [] = inl refl
List-cases (y ∷ ys) = inr (y, ys, refl)

backends_for_nil :
    (health : Health) (bs : List Backend) → usable health bs ≡ [] → backends_for health bs ≡ bs
unfolding backends_for
backends_for_nil health bs e = rw (e, backends_for) refl

backends_for_cons :
    (health : Health) (bs : List Backend) (y : Backend) (ys : List Backend)
    → usable health bs ≡ y ∷ ys
    → backends_for health bs ≡ usable health bs
unfolding backends_for
backends_for_cons health bs y ys e = rw (e, backends_for) refl

backends_for_elem :
    (health : Health) (bs : List Backend) (i : ℕ) (b : Backend)
    → get_elem? (backends_for health bs) i ≡ some b
    → (InService health b ⊎ AllOut health bs) × ((k : ℕ) × (get_elem? bs k ≡ some b))
backends_for_elem health bs i b e = elim (List-cases (usable health bs)) [
  | inl nothing ↦
      (inr (usable-AllOut health bs nothing), (i, rw (backends_for_nil health bs nothing) at e))
  | inr (y, ys, some') ↦
      let (u, k) = usable_elem health bs i b (rw (backends_for_cons health bs y ys some') at e) in
      (inl (is_usable-InService health b u), k)
]

-- For a prime table size below 2 ^ 32, and backends of a pool among those in question of which at
-- least one and fewer than `usize::MAX` have a weight: the pool gets a table, and the table finds
-- for every hash a backend of that pool with a weight, which is not drained and whose status is not
-- unhealthy, except where every backend of the pool is drained or unhealthy.
pub pool_table-lookup :
    (hasher : Hasher) (display : IpAddr → Bytes) (health : Health) (pool : BackendPool) (m hash : ℕ)
    → IsPrime m
    → m < 2 ^ 32
    → length (active (backends_for health pool.backends)) < usize_max
    → active (backends_for health pool.backends) ≢ []
    → (t : LookupTable) × (b : Backend) × (k : ℕ) × (pool_table hasher display health pool m
        ≡ built t)
      × (lookup t hash ≡ some b)
      × (get_elem? pool.backends k ≡ some b)
      × (0 < b.weight)
      × (InService health b ⊎ AllOut health pool.backends)
unfolding pool_table
pool_table-lookup hasher display health pool m hash p small few some' =
    let (t, b, k, done, found, elem, weight) =
      lookup-build hasher display m (backends_for health pool.backends) hash p small few some' in
    let (u, k') = backends_for_elem health pool.backends k b elem in
    (t, b, k'.0, done, found, k'.1, weight, u)
