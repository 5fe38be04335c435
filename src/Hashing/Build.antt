-- ===== src/Hashing/Build.antt =====
-- `LookupTable::build` and `lookup` as a whole (crates/lb-hashing/src/lookup_table.rs).
use native.Mathlib.Nat.{mod-lt}
use lb.Prelude.{
  ℕ, zero, suc, ◌-◌, ◌%◌, ◌^◌, ◌<◌, ◌≡◌, ◌≢◌, refl, sym, arith, false, List, [], ◌∷◌, map, some,
  ◌↔◌, inl, inr, Bool-cases, ltb, ltb→lt, length, get_or, get_elem?, replicate, length-replicate,
  length-map,
}
use lb.Types.Net.{Bytes, IpAddr}
use lb.Types.Backend.{Backend, name}
use lb.Hashing.Permutation.{Hasher, offset, skip}
use lb.Hashing.Prime.{IsPrime}
use lb.Hashing.Slots.{get_or-replicate, count_filled-replicate, count_below}
use lb.Hashing.Fill.{IsClaimant, Size, Fits, outer_loop-finished}
use lb.Hashing.Table.{
  LookupTable, Claimant, Filling, going, finished, stuck, Pass, built, active, claimant, usize_max,
  start, build_active, lookup, build, no_backends, outcome, outer_loop, Pass, going, finished,
}

-- Every slot holds the index of a backend.
pub record IsFull (t : LookupTable) : Type 0 where
  pub size : length t.entries ≡ t.table_size
  pub size_pos : 0 < t.table_size
  pub owned : (c : ℕ) → c < t.table_size → get_or t.entries c 0 < length t.backends

start-Fits : (m : ℕ) (ps : List Claimant) → Fits m ps (start m (length ps))
unfolding start
start-Fits m ps = record {
  size = length-replicate m usize_max;
  nexts = length-replicate (length ps) 0;
  count = sym (count_filled-replicate m);
  owned = λ c h taken. absurd (taken (get_or-replicate m c usize_max 0 h));
  visited = λ i j p e h. absurd (omega (arith, never (length ps) i));
}
  where
    never : (n i : ℕ) → get_or {A = ℕ} (replicate n 0) i 0 ≡ 0
    never zero i = refl
    never (suc n) zero = refl
    never (suc n) (suc i) = never n i

-- The element at an index that is inside the list.
elem_at {ℓ} :
    {A : Type ℓ} (xs : List A) (i : ℕ) → i < length xs → (x : A) × (get_elem? xs i ≡ some x)
elem_at [] i h = absurd (omega arith)
elem_at (x ∷ xs) zero h = (x, refl)
elem_at (x ∷ xs) (suc i) h = elem_at xs i (omega arith)

get_elem?-get_or : (xs : List ℕ) (i : ℕ) → i < length xs → get_elem? xs i ≡ some (get_or xs i 0)
get_elem?-get_or [] i h = absurd (omega arith)
get_elem?-get_or (x ∷ xs) zero h = refl
get_elem?-get_or (x ∷ xs) (suc i) h = get_elem?-get_or xs i (omega arith)

-- Every weight is 0.
unfoldable pub Weightless : List Backend → Type 0
Weightless [] = Unit
Weightless (b ∷ bs) = (b.weight ≡ 0) × Weightless bs

active-nil : (bs : List Backend) → (active bs ≡ []) ↔ Weightless bs
unfolding active Weightless
active-nil [] = (λ e. tt, λ w. refl)
active-nil (b ∷ bs) = elim (Bool-cases (ltb 0 b.weight)) [
  | inl t ↦ rw t (λ e. absurd (cc e), λ w. absurd (let (z, _) = w in ground arith))
  | inr t ↦ let (to, from) = active-nil bs in rw t (λ e. (ground arith, to e), λ w. from w.1)
]

-- An active backend is one of the given ones, and has a weight.
pub active_elem :
    (bs : List Backend) (i : ℕ) (b : Backend)
    → get_elem? (active bs) i ≡ some b
    → (0 < b.weight) × ((k : ℕ) × (get_elem? bs k ≡ some b))
unfolding active
active_elem [] i b e = cc
active_elem (x ∷ bs) i b e = elim (Bool-cases (ltb 0 x.weight)) [
  | inl t ↦ kept i (ltb→lt 0 x.weight t) (active_elem bs) (rw t at e)
  | inr t ↦ let (w, rest) = active_elem bs i b (rw t at e) in (w, (suc rest.0, rest.1))
]
  where
    kept :
        (i : ℕ)
        → 0 < x.weight
        → ((i : ℕ) (b : Backend)
            → get_elem? (active bs) i ≡ some b
            → (0 < b.weight) × ((k : ℕ) × (get_elem? bs k ≡ some b)))
        → get_elem? (x ∷ active bs) i ≡ some b
        → (0 < b.weight) × ((k : ℕ) × (get_elem? (x ∷ bs) k ≡ some b))
    kept zero w more e = let same : x ≡ b = cc in (rw (← same) w, (0, e))
    kept (suc i) w more e = let (w', rest) = more i b e in (w', (suc rest.0, rest.1))

-- `lookup` finds a backend of a full table, whatever the hash.
pub lookup-IsFull :
    (t : LookupTable) (hash : ℕ)
    → IsFull t
    → (i : ℕ) × ((b : Backend) × (get_elem? t.backends i ≡ some b) × (lookup t hash ≡ some b))
unfolding lookup
lookup-IsFull t hash f =
    let c = hash % t.table_size in
    let inside : c < t.table_size = mod-lt hash f.size_pos in
    let i = get_or t.entries c 0 in
    let (b, found) = elem_at t.backends i (f.owned c inside) in
    (i, (b, found, rw (get_elem?-get_or t.entries c (omega (arith, f.size)), lookup) found))

outcome-ne-no_backends : (m : ℕ) (bs : List Backend) (r : Pass) → outcome m bs r ≢ no_backends
unfolding outcome
outcome-ne-no_backends m bs (going st) e = cc
outcome-ne-no_backends m bs (finished st) e = cc
outcome-ne-no_backends m bs stuck e = cc

every_taken :
    {m : ℕ} {ps : List Claimant} (st : Filling)
    → Fits m ps st
    → st.filled ≡ m
    → (c : ℕ) → c < m
    → get_or st.entries c 0 ≢ usize_max
every_taken st f full c inside e =
    omega (arith, count_below st.entries c e (omega (arith, f.size)), f.size, f.count)

module _ (hasher : Hasher) (display : IpAddr → Bytes) (m : ℕ) where
  claimant-IsClaimant :
      IsPrime m
      → m < 2 ^ 32
      → (b : Backend) → 0 < b.weight
      → IsClaimant m (claimant hasher display m b)
  unfolding claimant offset skip
  claimant-IsClaimant p small b w =
      let above = p.above_one in
      let h = mod-lt (hasher.xxh3_64_with_seed (name display b) 1) {m = m - 1} (omega arith) in
      record {
        weight_pos = w;
        inside = mod-lt _ (omega arith);
        skip_pos = omega arith;
        skip_lt = omega arith;
      }

  map_claimants :
      (bs : List Backend) (i : ℕ) (p : Claimant)
      → get_elem? (map (claimant hasher display m) bs) i ≡ some p
      → (b : Backend) × (get_elem? bs i ≡ some b) × (p ≡ claimant hasher display m b)
  map_claimants [] i p e = cc
  map_claimants (b ∷ bs) zero p e = (b, refl, cc)
  map_claimants (b ∷ bs) (suc i) p e = map_claimants bs i p e

  build_active-IsFull :
      (b : Backend) (bs : List Backend)
      → IsPrime m
      → m < 2 ^ 32
      → length (b ∷ bs) < usize_max
      → ((i : ℕ) (c : Backend) → get_elem? (b ∷ bs) i ≡ some c → 0 < c.weight)
      → (t : LookupTable) × (build_active hasher display (b ∷ bs) m ≡ built t)
        × IsFull t
        × (t.backends ≡ b ∷ bs)
        × (t.table_size ≡ m)
  unfolding build_active
  build_active-IsFull b bs p small few weights =
      let above = p.above_one in
      let claims = map (claimant hasher display m) (b ∷ bs) in
      let same : length claims ≡ length (b ∷ bs) =
        length-map (b ∷ bs) (claimant hasher display m) in
      let valid : (i : ℕ) (q : Claimant) → get_elem? claims i ≡ some q → IsClaimant m q = λ i q e.
        (let (c, found, is) = map_claimants (b ∷ bs) i q e in
          rw is (claimant-IsClaimant p small c (weights i c found))) in
      let z : Size m (length claims) = record { prime = p; small = small; few = omega arith } in
      let zero_filled : (start m (length claims)).filled ≡ 0 = (unfold start in refl) in
      let (st, done, f, full) =
        outer_loop-finished m claims z valid m (start m (length claims)) (omega arith)
          (start-Fits m claims) (omega arith) (omega arith) in
      let big : ltb m 2 ≡ false = ground arith in
      (
        record { entries = st.entries; backends = b ∷ bs; table_size = m },
        rw big (rw (← same) (rw done)),
        record {
          size = f.size;
          size_pos = omega arith;
          owned = λ c inside. rw (← same) (f.owned c inside (every_taken st f full c inside));
        },
        refl,
        refl,
      )

  -- For a prime table size below 2 ^ 32, and fewer than `usize::MAX` active backends, at least one:
  -- `build` ends within its fuel and returns a table of `m` slots over exactly the backends with a
  -- weight above 0, in their order, and every slot of it holds the index of one of these.
  pub build-IsFull :
      (backends : List Backend)
      → IsPrime m
      → m < 2 ^ 32
      → length (active backends) < usize_max
      → active backends ≢ []
      → (t : LookupTable) × (build hasher display backends m ≡ built t)
        × IsFull t
        × (t.backends ≡ active backends)
        × (t.table_size ≡ m)
  unfolding build
  build-IsFull backends p small few some' =
      go (active backends) (λ i c e. (active_elem backends i c e).0) few some'
    where
      go :
          (bs : List Backend)
          → ((i : ℕ) (c : Backend) → get_elem? bs i ≡ some c → 0 < c.weight)
          → length bs < usize_max
          → bs ≢ []
          → (t : LookupTable) × (build_active hasher display bs m ≡ built t)
            × IsFull t
            × (t.backends ≡ bs)
            × (t.table_size ≡ m)
      go [] w f n = absurd (n refl)
      go (b ∷ bs) w f n = build_active-IsFull b bs p small f w

  -- For a prime table size below 2 ^ 32, and fewer than `usize::MAX` active backends, at least
  -- one: `lookup` on the built table finds, for every hash, one of the given backends, and one
  -- with a weight above 0: a backend of weight 0 takes no traffic.
  pub lookup-build :
      (backends : List Backend) (hash : ℕ)
      → IsPrime m
      → m < 2 ^ 32
      → length (active backends) < usize_max
      → active backends ≢ []
      → (t : LookupTable) × (b : Backend) × (k : ℕ) × (build hasher display backends m ≡ built t)
        × (lookup t hash ≡ some b)
        × (get_elem? backends k ≡ some b)
        × (0 < b.weight)
  lookup-build backends hash p small few some' =
      let (t, done, full, same, size) = build-IsFull backends p small few some' in
      let (i, rest) = lookup-IsFull t hash full in
      let e : get_elem? (active backends) i ≡ some rest.0 = rw same at rest.1 in
      let (w, k) = active_elem backends i rest.0 e in (t, rest.0, k.0, done, rest.2, k.1, w)

  build-active_nil :
      (backends : List Backend)
      → (build hasher display backends m ≡ no_backends) ↔ (active backends ≡ [])
  unfolding build build_active
  build-active_nil backends = go (active backends)
    where
      go : (bs : List Backend) → (build_active hasher display bs m ≡ no_backends) ↔ (bs ≡ [])
      go [] = (λ e. refl, λ e. refl)
      go (b ∷ bs) =
          let ps = map (claimant hasher display m) (b ∷ bs) in
          (
            λ e. absurd (
                ground (
                  arith,
                  outcome-ne-no_backends m (b ∷ bs)
                      (outer_loop m m m ps (start m (length (b ∷ bs)))),
                )),
            λ e. cc,
          )

  -- `build` reports its error exactly if the weight of every given backend is 0, for a table of any
  -- size.
  pub build-no_backends :
      (backends : List Backend)
      → (build hasher display backends m ≡ no_backends) ↔ Weightless backends
  build-no_backends backends =
      let (to, from) = build-active_nil backends in
      let (to', from') = active-nil backends in (λ e. to' (to e), λ w. from (from' w))
