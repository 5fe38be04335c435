-- ===== src/Forwarder/Checksum/Laws.antt =====
-- What the checksums are for: a receiver's sum comes out as all ones.
use lb.Prelude.{
  arith, bit_and, ℕ, ◌%◌, ◌+◌, ◌/◌, ◌<◌, ◌^◌, ◌≡◌, ◌≤◌, Bool-cases, if◌then◌else◌, inl, inr, ltb,
  ltb→lt, refl, suc, zero, ◌∙◌,
}
use lb.Prelude.Bits.{bit_and-mask}
use lb.Forwarder.Checksum.{fold_carry, rounds, incremental_checksum, not16}

step : (sum : ℕ) → bit_and sum 0xFFFF ≡ sum % 2 ^ 16
step sum = bit_and-mask 16 sum

-- One round keeps the value modulo 0xFFFF, and 0 only for 0.
carry_round :
    (sum : ℕ)
    → ((sum % 2 ^ 16 + sum / 2 ^ 16) % 0xFFFF ≡ sum % 0xFFFF)
      × (sum % 2 ^ 16 + sum / 2 ^ 16 ≤ sum)
      × (0 < sum → 0 < sum % 2 ^ 16 + sum / 2 ^ 16)
carry_round sum = (omega arith, omega arith, omega arith)

fold_carry-suc :
    (f sum : ℕ)
    → fold_carry (suc f) sum
      ≡ (if ltb 0xFFFF sum then fold_carry f (sum % 2 ^ 16 + sum / 2 ^ 16) else sum)
unfolding fold_carry
fold_carry-suc f sum = rw (step sum)

fold_keeps :
    (f sum : ℕ) → (fold_carry f sum % 0xFFFF ≡ sum % 0xFFFF) × (0 < sum → 0 < fold_carry f sum)
fold_keeps zero sum = (unfold fold_carry in (refl, λ h. h))
fold_keeps (suc f) sum =
    let (same, pos) = fold_keeps f (sum % 2 ^ 16 + sum / 2 ^ 16) in
    let (keeps, less, some') = carry_round sum in
    elim (Bool-cases (ltb 0xFFFF sum)) [
      | inl more ↦ rw (fold_carry-suc f sum, more) (same ∙ keeps, λ h. pos (some' h))
      | inr done ↦ rw (fold_carry-suc f sum, done) (refl, λ h. h)
    ]

-- One round brings a sum below `b * 2 ^ 16` under `2 ^ 16 + b`.
fold_shrinks :
    (f sum b : ℕ)
    → (sum % 2 ^ 16 + sum / 2 ^ 16 ≤ b → fold_carry f (sum % 2 ^ 16 + sum / 2 ^ 16) ≤ 0xFFFF)
    → (0xFFFF < sum → sum % 2 ^ 16 + sum / 2 ^ 16 ≤ b)
    → fold_carry (suc f) sum ≤ 0xFFFF
fold_shrinks f sum b next h = elim (Bool-cases (ltb 0xFFFF sum)) [
  | inl more ↦ rw (fold_carry-suc f sum, more) (next (h (ltb→lt _ _ more)))
  | inr done ↦ rw (fold_carry-suc f sum, done) (ground arith)
]

fold_bound : (sum : ℕ) → sum < 2 ^ 32 → fold_carry rounds sum ≤ 0xFFFF
fold_bound sum h =
    let a = sum % 2 ^ 16 + sum / 2 ^ 16 in
    let b = a % 2 ^ 16 + a / 2 ^ 16 in
    fold_shrinks 2 sum 131070
      (λ ha.
        fold_shrinks 1 a 0x10000
          (λ hb. fold_shrinks 0 b 0xFFFF (λ hc. (unfold fold_carry in hc)) (λ m. omega arith))
          (λ m. omega arith))
      (λ m. omega arith)

-- The loop ends within three rounds, in 16 bits, with the same value modulo 0xFFFF.
pub fold_carry_lem :
    (sum : ℕ)
    → sum < 2 ^ 32
    → (fold_carry rounds sum ≤ 0xFFFF)
      × (fold_carry rounds sum % 0xFFFF ≡ sum % 0xFFFF)
      × (0 < sum → 0 < fold_carry rounds sum)
fold_carry_lem sum h = let (same, pos) = fold_keeps rounds sum in (fold_bound sum h, same, pos)

-- Where a segment's words, with its checksum and the word to be changed, add up to a multiple of
-- 0xFFFF, as a valid segment's do, they still do with the new word and the new checksum; `rest`
-- is the sum of the other words.
pub incremental_checksum-valid :
    (rest old_checksum old_word new_word : ℕ)
    → old_checksum < 2 ^ 16
    → old_word < 2 ^ 16
    → new_word < 2 ^ 16
    → (rest + old_checksum + old_word) % 0xFFFF ≡ 0
    → ((rest + incremental_checksum old_checksum old_word new_word + new_word) % 0xFFFF ≡ 0)
      × (incremental_checksum old_checksum old_word new_word < 2 ^ 16)
unfolding incremental_checksum
incremental_checksum-valid rest c o n hc ho hn valid =
    let sum = not16 c + not16 o + n in
    let (bound, same, pos) = fold_carry_lem sum (omega arith) in (omega arith, omega arith)
