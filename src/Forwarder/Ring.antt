-- ===== src/Forwarder/Ring.antt =====
-- The slots of a table as a ring: where the probes of a hash start, how they go on, and how far a
-- slot is from the start. Both tables of crates/lb-forwarder use masks of a power of two.
use lb.Prelude.{
  ap, arith, bit_and, suc, zero, ℕ, ◌%◌, ◌*◌, ◌+◌, ◌-◌, ◌<◌, ◌^◌, ◌≡◌, ◌≤◌, ◌⊎◌, dec_lt, inl, inr,
  sym, ◌∙◌,
}
use native.Mathlib.Nat.{
  mod-mod_of_dvd, dvd-mul_left, mod_self, mod-lt, pow-suc, mod-eq_of_lt, add-mul-mod_self_right,
}
use lb.Prelude.Bits.{bit_and-mask, pow_pos}

-- `(hash as usize) & self.mask`.
unfoldable pub home : ℕ → ℕ → ℕ
home mask hash = bit_and hash mask

-- `(idx + 1) & self.mask`.
unfoldable pub advance : ℕ → ℕ → ℕ
advance mask idx = bit_and (idx + 1) mask

-- `idx.wrapping_sub(home) & self.mask`.
unfoldable pub probe_distance : ℕ → ℕ → ℕ → ℕ
unfolding home
probe_distance mask hash idx = bit_and ((idx + 2 ^ 64 - home mask hash) % 2 ^ 64) mask

pow-add : (a b : ℕ) → 2 ^ (a + b) ≡ 2 ^ a * 2 ^ b
pow-add zero b = let z : 0 + b ≡ b = omega arith in rw z (omega arith)
pow-add (suc a) b =
    let z : suc a + b ≡ suc (a + b) = omega arith in
    rw z (omega (arith, pow-suc 2 (a + b), ap (λ (t : ℕ). t * 2 ^ b) (pow-suc 2 a), pow-add a b))

times_pred : (q c : ℕ) → 0 < q → (q - 1) * c + c ≡ q * c
times_pred zero c h = absurd (omega arith)
times_pred (suc q) c h = let e : suc q - 1 ≡ q = omega arith in rw e (omega arith)

-- The same by remainders: the slot after `i`, and the distance of a slot from `hash`'s first one.
unfoldable pub next : ℕ → ℕ → ℕ
next cap i = (i + 1) % cap

unfoldable pub distance : ℕ → ℕ → ℕ → ℕ
distance cap hash i = (i + cap - hash % cap) % cap

module _ (k : ℕ) where
  pub home-mod : (hash : ℕ) → home (2 ^ k - 1) hash ≡ hash % 2 ^ k
  unfolding home
  home-mod hash = bit_and-mask k hash

  pub advance-next : (i : ℕ) → advance (2 ^ k - 1) i ≡ next (2 ^ k) i
  unfolding advance next
  advance-next i = bit_and-mask k (i + 1)

  pub probe_distance-distance :
      (hash i : ℕ)
      → k ≤ 64
      → i < 2 ^ k
      → probe_distance (2 ^ k - 1) hash i ≡ distance (2 ^ k) hash i
  unfolding probe_distance distance
  probe_distance-distance hash i h b =
      let c = 2 ^ k in
      let q = 2 ^ (64 - k) in
      let start = hash % c in
      let sum' : 64 - k + k ≡ 64 = omega arith in
      let split : 2 ^ 64 ≡ q * c = ap (λ (t : ℕ). 2 ^ t) (sym sum') ∙ pow-add (64 - k) k in
      let some' : 0 < q = pow_pos (64 - k) in
      let inside : start < c = mod-lt hash (pow_pos k) in
      let one : c ≤ q * c = grind arith in
      let parts : i + 2 ^ 64 - start ≡ i + c - start + (q - 1) * c =
        omega (arith, times_pred q c some', split) in
      rw (bit_and-mask k _, bit_and-mask k hash)
        (mod-mod_of_dvd c (i + 2 ^ 64 - start) (rw split (dvd-mul_left c q))
          ∙ ap (λ (t : ℕ). t % c) parts
          ∙ add-mul-mod_self_right (i + c - start) (q - 1) c)

module _ (cap : ℕ) (pos : 0 < cap) where
  pub next-lt : (i : ℕ) → next cap i < cap
  unfolding next
  next-lt i = mod-lt (i + 1) pos

  pub next-cases :
      (i : ℕ)
      → i < cap
      → ((i + 1 < cap) × (next cap i ≡ i + 1)) ⊎ ((i + 1 ≡ cap) × (next cap i ≡ 0))
  unfolding next
  next-cases i h = elim (dec_lt (i + 1) cap) [
    | yes inside ↦ inl (inside, mod-eq_of_lt inside)
    | no outside ↦ let end : i + 1 ≡ cap = omega arith in inr (end, rw end (mod_self cap))
  ]

  pub distance-cases :
      (hash i : ℕ)
      → i < cap
      → ((hash % cap ≤ i) × (distance cap hash i ≡ i - hash % cap))
        ⊎ ((i < hash % cap) × (distance cap hash i ≡ i + cap - hash % cap))
  unfolding distance
  distance-cases hash i h =
      let start = hash % cap in
      let below : start < cap = mod-lt hash pos in
      elim (dec_lt i start) [
        | yes before ↦ inr (before, mod-eq_of_lt (omega arith))
        | no after ↦
            let sum' : i + cap - start ≡ i - start + 1 * cap = omega arith in
            inl (
              omega arith,
              ap (λ (t : ℕ). t % cap) sum'
                  ∙ add-mul-mod_self_right (i - start) 1 cap
                  ∙ mod-eq_of_lt (omega arith),
            )
      ]

  pub sum-cases :
      (x y : ℕ)
      → x < cap
      → y < cap
      → ((x + y < cap) × ((x + y) % cap ≡ x + y)) ⊎ ((cap ≤ x + y) × ((x + y) % cap ≡ x + y - cap))
  sum-cases x y h k = elim (dec_lt (x + y) cap) [
    | yes inside ↦ inl (inside, mod-eq_of_lt inside)
    | no outside ↦
        let sum' : x + y ≡ x + y - cap + 1 * cap = omega arith in
        inr (
          omega arith,
          ap (λ (t : ℕ). t % cap) sum'
              ∙ add-mul-mod_self_right (x + y - cap) 1 cap
              ∙ mod-eq_of_lt (omega arith),
        )
  ]
