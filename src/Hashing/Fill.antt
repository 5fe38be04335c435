-- ===== src/Hashing/Fill.antt =====
-- The fill loop of `build` keeps its invariant, and every step of it takes one more slot.
use native.Mathlib.Nat.{mod-eq_of_lt}
use lb.Prelude.{
  ℕ, zero, suc, ◌+◌, ◌≤◌, ◌<◌, ◌≡◌, ◌≢◌, ◌^◌, refl, sym, ap, arith, List, [], ◌∷◌, some, ◌==◌,
  get_or, get_elem?, set, length, length-set, Bool-cases, inl, inr, ==_iff, ℕ_discrete, ◌⊎◌, ◌∙◌,
  dec_lt,
}
use lb.Hashing.Permutation.{preference, usize}
use lb.Hashing.Prime.{IsPrime, reaches}
use lb.Hashing.Seek.{Found, seek-Found, preference-mod}
use lb.Hashing.Slots.{get_or-set_self, get_or-set_ne, count_filled, count_filled-set, free_slot}
use lb.Hashing.Table.{
  Claimant, Filling, Pass, going, finished, stuck, usize_max, seek, take_slot, chances_loop,
  pass_loop, outer_loop,
}

-- Offsets and skips are in the range in which a preference list visits every slot.
pub record IsClaimant (m : ℕ) (p : Claimant) : Type 0 where
  pub weight_pos : 0 < p.weight
  pub inside : p.o < m
  pub skip_pos : 0 < p.s
  pub skip_lt : p.s < m

pub record Size (m n : ℕ) : Type 0 where
  pub prime : IsPrime m
  pub small : m < 2 ^ 32
  pub few : n < usize_max

get_elem?-lt {ℓ} :
    {A : Type ℓ} (xs : List A) (i : ℕ) (x : A) → get_elem? xs i ≡ some x → i < length xs
get_elem?-lt [] i x e = cc
get_elem?-lt (y ∷ ys) zero x e = omega arith
get_elem?-lt (y ∷ ys) (suc i) x e = omega (arith, get_elem?-lt ys i x e)

module _ (m : ℕ) (ps : List Claimant) where
  -- Each taken slot belongs to a backend, and each backend's list is taken up to its `next`.
  pub record Fits (st : Filling) : Type 0 where
    pub size : length st.entries ≡ m
    pub nexts : length st.next ≡ length ps
    pub count : st.filled ≡ count_filled st.entries
    pub owned :
        (c : ℕ) → c < m → get_or st.entries c 0 ≢ usize_max → get_or st.entries c 0 < length ps
    pub visited :
        (i j : ℕ) (p : Claimant)
        → get_elem? ps i ≡ some p
        → j < get_or st.next i 0
        → get_or st.entries (preference m p.o p.s j) 0 ≢ usize_max

  -- At least `k` slots are taken, all of them if the loop is over; the fuel is not spent.
  abbrev pub Reached : ℕ → Pass → Type 0
  Reached k (going st) = Fits st × (k ≤ st.filled) × (st.filled < m)
  Reached k (finished st) = Fits st × (st.filled ≡ m)
  Reached k stuck = ⊥

  Reached-mono : (a b : ℕ) (r : Pass) → b ≤ a → Reached a r → Reached b r
  Reached-mono a b (going st) h (f, k, l) = (f, omega arith, l)
  Reached-mono a b (finished st) h q = q
  Reached-mono a b stuck h q = q

  Reached-cases :
      (k : ℕ) (r : Pass)
      → Reached k r
      → ((st : Filling) × (r ≡ going st) × Fits st × (k ≤ st.filled) × (st.filled < m))
        ⊎ ((st : Filling) × (r ≡ finished st) × Fits st × (st.filled ≡ m))
  Reached-cases k (going st) (f, a, b) = inl (st, refl, f, a, b)
  Reached-cases k (finished st) (f, a) = inr (st, refl, f, a)
  Reached-cases k stuck q = absurd q

  module _ (z : Size m (length ps)) where
    preference-lt : (o s j : ℕ) → preference m o s j < m
    unfolding preference
    preference-lt o s j = let above = z.prime.above_one in omega arith

    -- While a slot is free, the search of a backend finds one.
    found :
        (i : ℕ) (p : Claimant) (st : Filling)
        → Fits st
        → IsClaimant m p
        → get_elem? ps i ≡ some p
        → st.filled < m
        → (r : ℕ) × (seek m m st.entries p.o p.s (get_or st.next i 0) ≡ some r)
          × (r < m)
          × Found m st.entries p.o p.s (get_or st.next i 0) r
    found i p st f c e h =
        let (slot, below, free) = free_slot st.entries (omega (arith, f.size, f.count)) in
        let (j, inside, hits) =
          reaches m p.o p.s slot z.prime c.skip_pos c.skip_lt c.inside (omega (arith, f.size)) in
        let here : preference m p.o p.s j ≡ slot =
          preference-mod m p.o p.s j z.small c.inside c.skip_lt inside ∙ hits in
        let free' : get_or st.entries (preference m p.o p.s j) 0 ≡ usize_max = rw here free in
        let from : get_or st.next i 0 ≤ j = elim (dec_lt j (get_or st.next i 0)) [
          | yes past ↦ absurd (f.visited i j p e past free')
          | no open' ↦ omega arith
        ] in
        let (r, done, bound, first) =
          seek-Found m st.entries p.o p.s m (get_or st.next i 0) j from (omega arith)
            (let small = z.small in omega arith) free' in
        (r, done, omega arith, first)

    take_slot-filled :
        (i : ℕ) (p : Claimant) (st : Filling) (r : ℕ)
        → st.filled < m
        → (take_slot m i p st r).filled ≡ st.filled + 1
    unfolding take_slot
    take_slot-filled i p st r h = let small = z.small in mod-eq_of_lt (omega arith)

    owner_small : (i : ℕ) (p : Claimant) → get_elem? ps i ≡ some p → i ≢ usize_max
    owner_small i p e = let few = z.few in omega (arith, get_elem?-lt ps i p e)

    -- A taken slot stays taken when a backend takes another.
    stays :
        (es : List ℕ) (c d i : ℕ)
        → c < length es
        → i ≢ usize_max
        → get_or es d 0 ≢ usize_max
        → get_or (set es c i) d 0 ≢ usize_max
    stays es c d i inside small taken = elim (ℕ_discrete c d) [
      | yes same ↦ rw (← same) (rw (get_or-set_self es c i 0 inside) small)
      | no other ↦ rw (get_or-set_ne es c d i 0 other) taken
    ]

    module _ (i : ℕ) (p : Claimant) (st : Filling) (r : ℕ) (f : Fits st)
        (e : get_elem? ps i ≡ some p) (below : r < m)
        (first : Found m st.entries p.o p.s (get_or st.next i 0) r) where
      slot_inside : preference m p.o p.s r < length st.entries
      slot_inside = omega (arith, preference-lt p.o p.s r, f.size)

      visited_before : (j : ℕ) → j < r → get_or st.entries (preference m p.o p.s j) 0 ≢ usize_max
      visited_before j before = elim (dec_lt j (get_or st.next i 0)) [
        | yes old ↦ f.visited i j p e old
        | no new ↦ first.taken j (omega arith) before
      ]

      visited_self :
          (j : ℕ)
          → j < r + 1
          → get_or (take_slot m i p st r).entries (preference m p.o p.s j) 0 ≢ usize_max
      unfolding take_slot
      visited_self j bound = elim (ℕ_discrete j r) [
        | yes last ↦ rw last (rw (get_or-set_self st.entries _ i 0 slot_inside) (owner_small i p e))
        | no early ↦
            stays st.entries _ _ i slot_inside (owner_small i p e) (visited_before j (omega arith))
      ]

      next_self : get_or (take_slot m i p st r).next i 0 ≡ r + 1
      unfolding take_slot
      next_self =
          let small = z.small in
          get_or-set_self st.next i (usize (r + 1)) 0
            (omega (arith, get_elem?-lt ps i p e, f.nexts))
          ∙ mod-eq_of_lt (omega arith)

      next_ne : (i' : ℕ) → i ≢ i' → get_or (take_slot m i p st r).next i' 0 ≡ get_or st.next i' 0
      unfolding take_slot
      next_ne i' other = get_or-set_ne st.next i i' (usize (r + 1)) 0 other

      take_slot-visited :
          (i' j : ℕ) (q : Claimant)
          → get_elem? ps i' ≡ some q
          → j < get_or (take_slot m i p st r).next i' 0
          → get_or (take_slot m i p st r).entries (preference m q.o q.s j) 0 ≢ usize_max
      unfolding take_slot
      take_slot-visited i' j q e' h = elim (ℕ_discrete i i') [
        | yes same ↦ let q-p : q ≡ p = cc in rw q-p (visited_self j (rw (← same, next_self) at h))
        | no other ↦
            stays st.entries _ _ i slot_inside (owner_small i p e)
              (f.visited i' j q e' (rw (next_ne i' other) at h))
      ]

      take_slot-owned :
          (c : ℕ)
          → c < m
          → get_or (take_slot m i p st r).entries c 0 ≢ usize_max
          → get_or (take_slot m i p st r).entries c 0 < length ps
      unfolding take_slot
      take_slot-owned c inside taken = elim (ℕ_discrete (preference m p.o p.s r) c) [
        | yes same ↦
            rw (← same) (rw (get_or-set_self st.entries _ i 0 slot_inside) (get_elem?-lt ps i p e))
        | no other ↦
            let kept = get_or-set_ne st.entries _ c i 0 other in
            rw kept (f.owned c inside (rw kept at taken))
      ]

      take_slot-Fits : st.filled < m → Fits (take_slot m i p st r)
      unfolding take_slot
      take_slot-Fits h = record {
        size = length-set st.entries _ i ∙ f.size;
        nexts = length-set st.next i _ ∙ f.nexts;
        count =
            take_slot-filled i p st r h
            ∙ ap (λ (t : ℕ). t + 1) f.count
            ∙ sym (count_filled-set st.entries _ i slot_inside first.free (owner_small i p e));
        owned = take_slot-owned;
        visited = take_slot-visited;
      }

    -- A backend takes one slot for each of its chances, or the last slot of all.
    chances_loop-Reached :
        (chances i : ℕ) (p : Claimant) (st : Filling)
        → Fits st
        → IsClaimant m p
        → get_elem? ps i ≡ some p
        → st.filled < m
        → Reached (st.filled + chances) (chances_loop m chances m i p st)
    unfolding chances_loop
    chances_loop-Reached zero i p st f c e h = (f, omega arith, h)
    chances_loop-Reached (suc k) i p st f c e h =
        let (r, done, below, first) = found i p st f c e h in
        let more = take_slot-filled i p st r h in
        let fits = take_slot-Fits i p st r f e below first h in
        rw (done, Reached, chances_loop)
          (elim (Bool-cases ((take_slot m i p st r).filled == m)) [
            | inl full ↦ rw (full, Reached) (fits, (==_iff _ _).0 full)
            | inr room ↦
                rw (room, Reached)
                  (Reached-mono ((take_slot m i p st r).filled + k) (st.filled + suc k) _
                    (omega arith)
                    (chances_loop-Reached k i p (take_slot m i p st r) fits c e (ground arith)))
          ])

    module _ (valid : (i : ℕ) (p : Claimant) → get_elem? ps i ≡ some p → IsClaimant m p) where
      -- A pass takes a slot for each backend at least.
      pass_loop-Reached :
          (rest : List Claimant) (i : ℕ) (st : Filling)
          → Fits st
          → ((k : ℕ) → get_elem? rest k ≡ get_elem? ps (i + k))
          → st.filled < m
          → Reached (st.filled + length rest) (pass_loop m m i rest st)
      unfolding pass_loop
      pass_loop-Reached [] i st f same h = (f, omega arith, h)
      pass_loop-Reached (p ∷ rest) i st f same h =
          let e : get_elem? ps i ≡ some p =
            (let z' : i + 0 ≡ i = omega arith in rw z' at (sym (same 0))) in
          let c = valid i p e in
          let tail : (k : ℕ) → get_elem? rest k ≡ get_elem? ps (i + 1 + k) =
            λ k. (let a : i + suc k ≡ i + 1 + k = omega arith in rw a at (same (suc k))) in
          elim (Reached-cases _ _ (chances_loop-Reached p.weight i p st f c e h)) [
            | inl (st', is, f', more, room) ↦
                rw (is, Reached, pass_loop)
                  (Reached-mono (st'.filled + length rest) (st.filled + suc (length rest)) _
                    (let w = c.weight_pos in omega arith)
                    (pass_loop-Reached rest (i + 1) st' f' tail room))
            | inr (st', is, f', full) ↦ rw (is, Reached, pass_loop) (f', full)
          ]

      -- With as many passes as slots, the loop ends with every slot taken.
      pub outer_loop-finished :
          (passes : ℕ) (st : Filling)
          → 0 < length ps
          → Fits st
          → m ≤ st.filled + passes
          → st.filled < m
          → (st' : Filling) × (outer_loop passes m m ps st ≡ finished st')
            × Fits st'
            × (st'.filled ≡ m)
      unfolding outer_loop
      outer_loop-finished zero st some' f bound h = absurd (omega arith)
      outer_loop-finished (suc passes) st some' f bound h =
          elim (Reached-cases _ _
            (pass_loop-Reached ps 0 st f (λ k. (let a : 0 + k ≡ k = omega arith in rw a)) h)) [
              | inl (st', is, f', more, room) ↦
                  rw (is, outer_loop) (outer_loop-finished passes st' some' f' (omega arith) room)
              | inr (st', is, f', full) ↦ (st', rw (is, outer_loop), f', full)
            ]
