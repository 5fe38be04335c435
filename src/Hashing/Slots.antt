-- ===== src/Hashing/Slots.antt =====
-- The entries of a lookup table as a list of slots: reading, writing and counting the taken ones.
use lb.Prelude.{
  ℕ, zero, suc, ◌+◌, ◌≤◌, ◌<◌, ◌≡◌, ◌≢◌, refl, ap, arith, List, [], ◌∷◌, ◌==◌, if◌then◌else◌,
  length, get_or, set, replicate, ℕ_discrete,
}
use lb.Hashing.Table.{usize_max}

module _ {ℓ} {A : Type ℓ} where
  pub get_or-set_self :
      (xs : List A) (i : ℕ) (v d : A) → i < length xs → get_or (set xs i v) i d ≡ v
  get_or-set_self [] i v d h = absurd (omega arith)
  get_or-set_self (x ∷ xs) zero v d h = refl
  get_or-set_self (x ∷ xs) (suc i) v d h = get_or-set_self xs i v d (omega arith)

  pub get_or-set_ne :
      (xs : List A) (i j : ℕ) (v d : A) → i ≢ j → get_or (set xs i v) j d ≡ get_or xs j d
  get_or-set_ne [] i j v d h = refl
  get_or-set_ne (x ∷ xs) zero zero v d h = absurd (h refl)
  get_or-set_ne (x ∷ xs) zero (suc j) v d h = refl
  get_or-set_ne (x ∷ xs) (suc i) zero v d h = refl
  get_or-set_ne (x ∷ xs) (suc i) (suc j) v d h = get_or-set_ne xs i j v d (λ e. h (ap suc e))

  pub get_or-replicate : (n i : ℕ) (v d : A) → i < n → get_or (replicate n v) i d ≡ v
  get_or-replicate zero i v d h = absurd (omega arith)
  get_or-replicate (suc n) zero v d h = refl
  get_or-replicate (suc n) (suc i) v d h = get_or-replicate n i v d (omega arith)

-- The number of slots that are taken.
pub count_filled : List ℕ → ℕ
count_filled [] = 0
count_filled (e ∷ es) = (if e == usize_max then 0 else 1) + count_filled es

pub count_filled-le : (es : List ℕ) → count_filled es ≤ length es
unfolding count_filled
count_filled-le [] = omega arith
count_filled-le (e ∷ es) = ground (arith, count_filled-le es)

-- Fewer taken slots than slots: one is free.
pub free_slot :
    (es : List ℕ)
    → count_filled es < length es
    → (c : ℕ) × (c < length es) × (get_or es c 0 ≡ usize_max)
unfolding count_filled
free_slot [] h = absurd (omega arith)
free_slot (e ∷ es) h = elim (dec e) [
  | yes p ↦ (0, omega arith, p)
  | no p ↦ let (c, below, found) = free_slot es (ground arith) in (suc c, omega arith, found)
]
  where
    dec : (e : ℕ) → Dec (e ≡ usize_max)
    dec e = ℕ_discrete e usize_max

pub count_filled-set :
    (es : List ℕ) (c v : ℕ)
    → c < length es
    → get_or es c 0 ≡ usize_max
    → v ≢ usize_max
    → count_filled (set es c v) ≡ count_filled es + 1
unfolding count_filled
count_filled-set [] c v h f g = absurd (omega arith)
count_filled-set (e ∷ es) zero v h f g = ground arith
count_filled-set (e ∷ es) (suc c) v h f g = omega (arith, count_filled-set es c v (omega arith) f g)

pub count_filled-replicate : (n : ℕ) → count_filled (replicate n usize_max) ≡ 0
unfolding count_filled
count_filled-replicate zero = refl
count_filled-replicate (suc n) = omega (arith, count_filled-replicate n)

pub count_below :
    (es : List ℕ) (c : ℕ) → get_or es c 0 ≡ usize_max → c < length es → count_filled es < length es
unfolding count_filled
count_below [] c e h = absurd (omega arith)
count_below (x ∷ es) zero e h = ground (arith, count_filled-le es)
count_below (x ∷ es) (suc c) e h = ground (arith, count_below es c e (omega arith))
