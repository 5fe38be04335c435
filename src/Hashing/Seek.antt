-- ===== src/Hashing/Seek.antt =====
-- The inner `while` loop of `build`: it ends at the first free slot of the preference list.
use native.Mathlib.Nat.{mod-eq_of_lt}
use lb.Prelude.{
  ℕ, zero, suc, ◌+◌, ◌-◌, ◌*◌, ◌%◌, ◌≤◌, ◌<◌, ◌≡◌, ◌≢◌, ◌^◌, arith, List, some, ◌==◌, get_or,
  Bool-cases, inl, inr, ==_iff, ℕ_discrete,
}
use lb.Hashing.Table.{usize_max, seek}
use lb.Hashing.Permutation.{preference, usize}

-- Below 2 ^ 32 slots, `o + j * s` does not wrap around.
pub preference-mod :
    (m o s j : ℕ) → m < 2 ^ 32 → o < m → s < m → j < m → preference m o s j ≡ (o + j * s) % m
unfolding preference
preference-mod m o s j h ho hs hj =
    let product : j * s ≤ (2 ^ 32 - 2) * (2 ^ 32 - 2) = grind arith in
    let inner : (j * s) % 2 ^ 64 ≡ j * s = mod-eq_of_lt (omega arith) in
    let outer : (o + j * s) % 2 ^ 64 ≡ o + j * s = mod-eq_of_lt (omega arith) in rw inner (rw outer)

-- `r` is the first number from `n` on whose preference is a free slot.
pub record Found (m : ℕ) (entries : List ℕ) (o s n r : ℕ) : Type 0 where
  pub from : n ≤ r
  pub free : get_or entries (preference m o s r) 0 ≡ usize_max
  pub taken : (i : ℕ) → n ≤ i → i < r → get_or entries (preference m o s i) 0 ≢ usize_max

module _ (m : ℕ) (entries : List ℕ) (o s : ℕ) where
  Found-suc :
      (n r : ℕ)
      → get_or entries (preference m o s n) 0 ≢ usize_max
      → Found m entries o s (n + 1) r
      → Found m entries o s n r
  Found-suc n r here f = record {
    from = omega (arith, f.from);
    free = f.free;
    taken =
        λ i h k. elim (ℕ_discrete n i) [ yes e ↦ rw e at here | no e ↦ f.taken i (omega arith) k ];
  }

  -- With a free slot at `j` and fuel to get there, the search ends at or before it.
  pub seek-Found :
      (f n j : ℕ)
      → n ≤ j
      → j < n + f
      → j < 2 ^ 32
      → get_or entries (preference m o s j) 0 ≡ usize_max
      → (r : ℕ) × (seek f m entries o s n ≡ some r) × (r ≤ j) × Found m entries o s n r
  unfolding seek
  seek-Found zero n j h k b e = absurd (omega arith)
  seek-Found (suc f) n j h k b e =
      elim (Bool-cases (get_or entries (preference m o s n) 0 == usize_max)) [
        | inl free ↦ (
          n,
          rw free,
          h,
          record {
            from = omega arith;
            free = (==_iff _ _).0 free;
            taken = λ i p q. absurd (omega arith);
          },
        )
        | inr full ↦
            let busy : get_or entries (preference m o s n) 0 ≢ usize_max = ground arith in
            let later : n ≢ j = λ same. busy (rw same e) in
            let (r, done, bound, found) = seek-Found f (n + 1) j (omega arith) (omega arith) b e in
            let wrap : usize (n + 1) ≡ n + 1 = mod-eq_of_lt (omega arith) in
            (r, rw full (rw wrap done), bound, Found-suc n r busy found)
      ]
