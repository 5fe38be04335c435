-- ===== src/Forwarder/Gre/Laws.antt =====
-- The outer header of a tunnelled packet and the packet behind it (gre.rs).
use native.Mathlib.Nat.{mod-eq_of_lt}
use lb.Prelude.{
  lt→ltb, refl, ap, arith, ℕ, ◌%◌, ◌*◌, ◌+◌, ◌<◌, ◌^◌, ◌∷◌, ◌≡◌, [], if◌then◌else◌, ◌/◌, ◌==◌, ◌∙◌,
  Bool-cases, inl, inr, length, ltb, take, ◌++◌, ◌≤◌, length-take, some,
}
use lb.Types.Net.{Bytes, Ipv4Addr, to_be_bytes}
use lb.Prelude.Checked.{value, index}
use lb.Forwarder.PacketBuf.{overwrite, overwrite-nil, take-overwrite, length-overwrite}
use lb.Forwarder.Checksum.{ip_checksum, sum_words, fold_carry, rounds, not16}
use lb.Forwarder.Checksum.Laws.{fold_carry_lem}
use lb.Forwarder.Gre.{encapsulate_fitting, inner_proto, outer_header, encapsulate_ipv4_buf}

-- The four octets are bytes.
pub record IsAddress (ip : Ipv4Addr) : Type 0 where
  pub a_lt : ip.a < 256
  pub b_lt : ip.b < 256
  pub c_lt : ip.c < 256
  pub d_lt : ip.d < 256

pub inner_proto-value : (n x : ℕ) (rest : Bytes) → (p : ℕ) × (inner_proto n (x ∷ rest) ≡ value p)
unfolding inner_proto index
inner_proto-value n x rest = elim (Bool-cases (ltb 0 n)) [
  | inl t ↦ ((if x / 16 == 6 then 0x86DD else 0x0800), rw t)
  | inr t ↦ (0x0800, rw t)
]

-- The words of the outer header other than its checksum.
header_sum : ℕ → Ipv4Addr → Ipv4Addr → ℕ
header_sum total s d =
    0x4500
    + total % 2 ^ 16
    + 0x4000
    + (64 * 256 + 47)
    + (s.a * 256 + s.b)
    + (s.c * 256 + s.d)
    + (d.a * 256 + d.b)
    + (d.c * 256 + d.d)

-- The outer header with the checksum `c`.
unfoldable pub sealed_header : ℕ → Ipv4Addr → Ipv4Addr → ℕ → Bytes
sealed_header total s d c =
    0x45
    ∷ 0x00
    ∷ (total / 256) % 256
    ∷ total % 256
    ∷ 0
    ∷ 0
    ∷ 0x40
    ∷ 0x00
    ∷ 64
    ∷ 47
    ∷ (c / 256) % 256
    ∷ c % 256
    ∷ s.a
    ∷ s.b
    ∷ s.c
    ∷ s.d
    ∷ d.a
    ∷ d.b
    ∷ d.c
    ∷ d.d
    ∷ []

module _ (s d : Ipv4Addr) (vs : IsAddress s) (vd : IsAddress d) (total : ℕ)
    (small : total < 2 ^ 16) where
  sum-sealed :
      (c : ℕ) → c < 2 ^ 16 → sum_words 0 (sealed_header total s d c) ≡ header_sum total s d + c
  unfolding sum_words sealed_header header_sum
  sum-sealed c h = omega arith

  checksum : ℕ
  checksum = not16 (fold_carry rounds (header_sum total s d))

  header_sum-lt : (header_sum total s d < 2 ^ 24) × (0 < header_sum total s d)
  unfolding header_sum
  header_sum-lt = (omega arith, omega arith)

  -- The source's checksum, over the header that has 0 in its place.
  checksum-header : ip_checksum (sealed_header total s d 0) ≡ value checksum
  unfolding ip_checksum sealed_header checksum
  checksum-header =
      let e : sum_words 0 (sealed_header total s d 0) ≡ header_sum total s d =
        sum-sealed 0 (omega arith) ∙ omega arith in
      ap (λ (t : ℕ). value (not16 (fold_carry rounds t))) e

-- The buffer as its first 24 bytes and the rest.
module _ (s d : Ipv4Addr) (vs : IsAddress s) (vd : IsAddress d) (n : ℕ)
    (small : n + 24 < 2 ^ 16) where
  sealed_of : ℕ
  sealed_of = checksum s d vs vd (n + 24) small

  tunnelled :
      (data' : Bytes) (p : ℕ)
      → n + 24 ≤ length data'
      → inner_proto n data' ≡ value p
      → (w : Bytes) × (encapsulate_fitting data' n s d
          ≡ value (sealed_header (n + 24) s d sealed_of ++ ((0 ∷ 0 ∷ to_be_bytes p) ++ w)))
        × (take n w ≡ take n data')
        × (length w + 24 ≡ length data')
  unfolding encapsulate_fitting outer_header sealed_header overwrite sealed_of
  tunnelled
        (x0 ∷ x1 ∷ x2 ∷ x3 ∷ x4 ∷ x5 ∷ x6 ∷ x7 ∷ x8 ∷ x9 ∷ x10 ∷ x11 ∷ x12 ∷ x13 ∷ x14 ∷ x15 ∷ x16
          ∷ x17 ∷ x18 ∷ x19 ∷ x20 ∷ x21 ∷ x22 ∷ x23 ∷ xs)
        p fits proto =
      let inner = take n (
        x0 ∷ x1 ∷ x2 ∷ x3 ∷ x4 ∷ x5 ∷ x6 ∷ x7 ∷ x8 ∷ x9 ∷ x10 ∷ x11 ∷ x12 ∷ x13 ∷ x14 ∷ x15 ∷ x16
        ∷ x17 ∷ x18 ∷ x19 ∷ x20 ∷ x21 ∷ x22 ∷ x23 ∷ xs) in
      let whole : (n + 24) % 2 ^ 16 ≡ n + 24 = mod-eq_of_lt small in
      (
        overwrite xs 0 inner,
        rw proto (
            rw whole (
              rw (overwrite-nil (overwrite xs 0 inner))
                (rw (checksum-header s d vs vd (n + 24) small)))),
        take-overwrite xs inner n
            (omega (
              arith,
              length-take n (
                  x0 ∷ x1 ∷ x2 ∷ x3 ∷ x4 ∷ x5 ∷ x6 ∷ x7 ∷ x8 ∷ x9 ∷ x10 ∷ x11 ∷ x12 ∷ x13 ∷ x14
                  ∷ x15 ∷ x16 ∷ x17 ∷ x18 ∷ x19 ∷ x20 ∷ x21 ∷ x22 ∷ x23 ∷ xs),
            ))
            (omega arith),
        omega (arith, length-overwrite xs 0 inner),
      )
  tunnelled _ p fits proto = absurd (omega arith)

-- The sum of the 16-bit words of a header.
unfoldable pub word_sum : Bytes → ℕ
word_sum [] = 0
word_sum (x ∷ []) = x * 256
word_sum (x ∷ y ∷ rest) = x * 256 + y + word_sum rest

-- The two bytes of the GRE type of an inner packet that begins with `x`.
abbrev pub gre_type : ℕ → Bytes
gre_type x = if x / 16 == 6 then 0x86 ∷ 0xDD ∷ [] else 0x08 ∷ 0x00 ∷ []

inner_proto-type :
    (n x : ℕ) (rest : Bytes)
    → 0 < n
    → (p : ℕ) × (inner_proto n (x ∷ rest) ≡ value p) × (to_be_bytes p ≡ gre_type x)
unfolding inner_proto index
inner_proto-type n x rest h = elim (Bool-cases (x / 16 == 6)) [
  | inl t ↦ (0x86DD, rw (lt→ltb 0 n h, t) refl, rw t refl)
  | inr t ↦ (0x0800, rw (lt→ltb 0 n h, t) refl, rw t refl)
]

-- The words of the sealed header, with the checksum among them, add up to a multiple of 0xFFFF.
sealed-word_sum :
    (s d : Ipv4Addr) (vs : IsAddress s) (vd : IsAddress d) (total : ℕ) (small : total < 2 ^ 16)
    → (word_sum (sealed_header total s d (checksum s d vs vd total small)) % 0xFFFF ≡ 0)
      × (checksum s d vs vd total small < 2 ^ 16)
unfolding word_sum sealed_header checksum header_sum
sealed-word_sum s d vs vd total small =
    let (bound, same, some') =
      fold_carry_lem (header_sum total s d)
        (let h = header_sum-lt s d vs vd total small in omega arith) in
    (omega arith, omega arith)

-- A packet of `n` bytes, at least one, that fits its buffer with 24 more, `n + 24` below 2 ^ 16, is
-- encapsulated between any two addresses, without a panic. The new length is `n + 24`. The buffer
-- keeps its size and begins with an IPv4 header without options: that total length, no
-- fragmentation, a TTL of 64, the protocol GRE, a checksum with which its words add up to a
-- multiple of 0xFFFF, the source and the destination. A GRE header without flags follows, whose type
-- is IPv6 for an inner packet of version 6 and else IPv4, and then the `n` bytes of that packet.
pub encapsulate_ipv4_buf-tunnel :
    (s d : Ipv4Addr)
    → IsAddress s
    → IsAddress d
    → (n x : ℕ) (xs : Bytes) → 0 < n
    → n + 24 < 2 ^ 16
    → n + 24 ≤ length (x ∷ xs)
    → (c : ℕ) × (w : Bytes) × (encapsulate_ipv4_buf (x ∷ xs) n s d
        ≡ value (some (sealed_header (n + 24) s d c ++ ((0x00 ∷ 0x00 ∷ gre_type x) ++ w), n + 24)))
      × (c < 2 ^ 16)
      × (word_sum (sealed_header (n + 24) s d c) % 0xFFFF ≡ 0)
      × (length w + 24 ≡ length (x ∷ xs))
      × (take n w ≡ take n (x ∷ xs))
unfolding encapsulate_ipv4_buf sealed_of
encapsulate_ipv4_buf-tunnel s d vs vd n x xs pos small fits =
    let data' = x ∷ xs in
    let (p, proto, type) = inner_proto-type n x xs pos in
    let (w, run, same, size) = tunnelled s d vs vd n small data' p fits proto in
    let (zero_sum, bound) = sealed-word_sum s d vs vd (n + 24) small in
    (
      sealed_of s d vs vd n small,
      w,
      elim (Bool-cases (ltb (length data') (n + 24))) [
        | inl t ↦ absurd (ground arith)
        | inr t ↦ rw t (
            rw run (
              ap
                (λ (b : Bytes). value (
                  some (
                    sealed_header (n + 24) s d (sealed_of s d vs vd n small)
                        ++ ((0x00 ∷ 0x00 ∷ b) ++ w),
                    n + 24,
                  )))
                type))
      ],
      bound,
      zero_sum,
      size,
      same,
    )
