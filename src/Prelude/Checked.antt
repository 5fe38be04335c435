-- ===== src/Prelude/Checked.antt =====
-- Code that may panic: reads of a slice are checked.
use Prim.Native.Nat.{ℕ, zero, suc, ◌<◌}
use mathlib.Core.Logic.{◌⊎◌, inl, inr}
use mathlib.Core.Path.{◌≡◌, refl}
use mathlib.Core.List.{List, [], ◌∷◌}
use mathlib.Core.Option.{none, some}
use mathlib.Core.Bool.{Bool, true, false}
use lb.Prelude.Tests.{if◌then◌else◌}
use native.Mathlib.Omega.{arith}
use lb.Prelude.Lists.{length, get_elem?, get_or}

pub data Checked {ℓ} (A : Type ℓ) : Type ℓ where
  value : A → Checked A
  panic : Checked A

infixl 5 ◌>>=◌
abbrev pub ◌>>=◌ {ℓ κ} : {A : Type ℓ} {B : Type κ} → Checked A → (A → Checked B) → Checked B
value a >>= f = f a
panic >>= f = panic

-- `data[i]`.
unfoldable pub index {ℓ} : {A : Type ℓ} → List A → ℕ → Checked A
index xs i = elim (get_elem? xs i) [ none ↦ panic | some x ↦ value x ]

pub index-value : (xs : List ℕ) (i : ℕ) → i < length xs → index xs i ≡ value (get_or xs i 0)
unfolding index
index-value [] i h = absurd (omega arith)
index-value (x ∷ xs) zero h = refl
index-value (x ∷ xs) (suc i) h = index-value xs i (omega arith)

-- The code does not panic.
abbrev pub Runs {ℓ} : {A : Type ℓ} → Checked A → Type 0
Runs (value a) = Unit
Runs panic = ⊥

pub >>=-Runs {ℓ κ} :
    {A : Type ℓ} {B : Type κ} (m : Checked A) (f : A → Checked B)
    → Runs m
    → ((a : A) → Runs (f a))
    → Runs (m >>= f)
>>=-Runs (value a) f h k = k a
>>=-Runs panic f h k = h

pub index-Runs : (xs : List ℕ) (i : ℕ) → i < length xs → Runs (index xs i)
index-Runs xs i h = rw (index-value xs i h, Runs) tt

pub if-Runs {ℓ} :
    {A : Type ℓ} (b : Bool) (m n : Checked A)
    → (b ≡ true → Runs m)
    → (b ≡ false → Runs n)
    → Runs (if b then m else n)
if-Runs true m n h k = h refl
if-Runs false m n h k = k refl

-- A property of a conditional, from that of its branches.
pub if-holds {ℓ κ} :
    {A : Type ℓ} (P : A → Type κ) (b : Bool) (m n : A)
    → (b ≡ true → P m)
    → (b ≡ false → P n)
    → P (if b then m else n)
if-holds P true m n h k = h refl
if-holds P false m n h k = k refl

pub Checked-cases {ℓ} : {A : Type ℓ} (m : Checked A) → (m ≡ panic) ⊎ ((a : A) × (m ≡ value a))
Checked-cases panic = inl refl
Checked-cases (value a) = inr (a, refl)

pub index_inside {ℓ} :
    {A : Type ℓ} (xs : List A) (i : ℕ) → i < length xs → (x : A) × (index xs i ≡ value x)
unfolding index
index_inside [] i h = absurd (omega arith)
index_inside (x ∷ xs) zero h = (x, refl)
index_inside (x ∷ xs) (suc i) h = index_inside xs i (omega arith)
